-- ===== src/Futex.antt =====
-- The futexes of a node, src/subsys/sync/futexstate.{h,cpp}.
pub mod Queues
pub mod Requeue
pub mod Handle
pub mod Wake
pub mod Consistent
pub mod Agreement
mod Tests
