-- ===== src/Sse.antt =====
-- crates/hotbatch-server/src/sse.rs: the text that a stream shows.
mod Defs
mod Stream
pub use Defs.{
  FilterUpdate, continue_with, stop_with, FilterError, changed_text, stop_in_emitted,
  buffering_crossed, TextOutputFilter,
}
unfoldable pub use Defs.{new, starts_with, find, earliest_stop, held_back, push, finish}
pub use Stream.{
  StreamKind, completion, chat, Frame, completion_chunk, chat_chunk, error_event, done_marker,
}
unfoldable pub use Stream.{
  trim_end, filter_text, token_chunk, stop_chunk, last_chunk, next_text, rest_text, stream_from,
  openai_stream,
}
pub mod Search
pub mod Shown
