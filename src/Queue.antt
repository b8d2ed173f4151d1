-- ===== src/Queue.antt =====
-- `RequestQueue` of crates/hotbatch-core/src/scheduler.rs: the bounded priority queue that the HTTP
-- tasks share with the scheduler. Each operation holds the lock from start to end, so it is one step.
mod Defs
pub use Defs.{QueueState, Shared}
unfoldable pub use Defs.{
  new, prune, cancel_each, pruned, submit, submit_all, try_pop, len, is_empty, close_and_drain,
  best_from, best, take_best, remove_at,
}
pub mod Order
pub mod Bound
