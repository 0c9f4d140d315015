-- ===== src/Tests.antt =====
-- Test runs of the engine, and each theorem at an input that meets its hypotheses.
mod Samples
mod Runs
mod EngineWitnesses
mod StateWitnesses
mod LedgerWitnesses
mod ImportWitnesses
mod PurchaseWitnesses
mod BackendWitnesses
