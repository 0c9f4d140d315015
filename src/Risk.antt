-- ===== src/Risk.antt =====
-- buyorwait_engine/risk: stressed states, the risk tier and the risk policy.
pub mod Stress
pub mod Classifier
pub mod Policy
