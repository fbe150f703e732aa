-- ===== src/Eval.antt =====
-- The scripts that evaluate the search of the server (scripts/eval): the limit on the rate of calls,
-- the measures, and the making of the questions.
pub mod Limiter
pub mod Overlap
pub mod Measures
pub mod Quota
pub mod Questions
mod Tests
