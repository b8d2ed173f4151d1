-- ===== src/Sequence.antt =====
-- crates/hotbatch-core/src/sequence.rs: one request's generation state.
mod Stops
mod Defs
pub mod Suffix
pub mod Matched
pub mod Emit
pub mod Finish
pub mod Limit
pub use Defs.{
  FinishReason, length_reached, stop_reached, SequenceState, prefilling, running, finished,
  cancelled, failed, GenerationRequest, Sequence, TokenTiming,
}
unfoldable pub use Stops.{find_prefix, longest_prefix, matched_stop_len, pending_stop_prefix_len}
unfoldable pub use Defs.{
  prompt_len, max_new_tokens, start, new, mark_running, stamp, settle, append_token, cancel, fail,
  is_finished, is_cancelled, is_failed, is_done, safe_end, take_emittable_tokens, last_token,
  decode_position,
}
