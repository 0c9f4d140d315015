-- ===== src/State.antt =====
-- buyorwait_engine/state/builder.py: a financial state from a profile and its events.
pub mod Resolve
pub mod Projections
pub mod Builder
