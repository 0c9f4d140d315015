-- ===== src/Ledger.antt =====
-- buyorwait_engine/forecast/ledger.py, in its children: the definitions, the projection that they are
-- held against, and what the ledger guarantees.
pub mod Daily
pub mod Projection
pub mod Maps
pub mod Minimum
pub mod Solvency
