-- ===== src/Decision.antt =====
-- buyorwait_engine/decision: safe amounts and dates, spending changes, candidate plans, the ranking
-- and the decision.
pub mod SafeAmount
pub mod EarliestDate
pub mod Spending
pub mod Candidates
pub mod Ranker
