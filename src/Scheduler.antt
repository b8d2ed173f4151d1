-- ===== src/Scheduler.antt =====
-- The continuous-batching scheduler of crates/hotbatch-core/src/scheduler.rs.
mod Defs
mod Admission
mod Decode
mod Loop
pub use Defs.{Engine, Config, Scheduler, Exec, finished, panicked, out_of_fuel}
unfoldable pub use Defs.{
  new, note, response_is_done, sender_is_closed, validate_request, remove_closed_sequences,
  remove_sequences_past_model_capacity,
}
unfoldable pub use Admission.{admit}
unfoldable pub use Decode.{input_of, emit, build_decode_batch, decode}
pub use Loop.{Control, again, stop}
unfoldable pub use Loop.{round, shut_down, run}
pub mod Live
pub mod Reaping
pub mod Starting
pub mod Admitting
pub mod Ending
pub mod Advancing
pub mod Decoding
pub mod Progress
pub mod Running
pub mod Rounds
