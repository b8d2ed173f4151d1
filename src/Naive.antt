-- ===== src/Naive.antt =====
-- crates/hotbatch-server/src/naive.rs: the engine that serves one request at a time.
mod Defs
pub mod Submit
pub use Defs.{
  Answer, fine, failure, Turn, shutdown_came, response_over, consumer_gone, got_model, Check, leave,
  go, broken,
}
unfoldable pub use Defs.{
  try_acquire, release_permit, before_forward, after_forward, decode_loop, prefill_and_decode,
  generate_one, run_naive_request,
}
pub mod Permits
pub mod Ending
pub mod Loop
pub mod Answering
