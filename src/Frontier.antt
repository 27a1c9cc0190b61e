-- ===== src/Frontier.antt =====
-- The search frontier, src/core/search/frontier.{h,cpp}.
pub mod State
pub mod Propagate
pub mod Lease
pub mod Commit
pub mod Visit
pub mod Potential
pub mod Distances
pub mod Settled
pub mod Lost
pub mod Calls
pub mod Invariant
pub mod Order
pub mod Counts
pub mod Verdict
pub mod Reach
pub mod Outcome
mod Tests
pub mod Holders
pub mod Leases
