-- ===== src/BalancePlan.antt =====
-- How the meta server carries out a balance plan: src/meta/processors/admin/BalanceTask.h and .cpp,
-- the move of one part, and BalancePlan.h and .cpp, the tasks of a plan.
pub mod Task
pub mod Order
pub mod Ends
pub mod Plan
pub mod Dispatch
pub mod Runs
pub mod Over
pub mod Invoked
mod Tests
