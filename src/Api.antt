-- ===== src/Api.antt =====
-- crates/hotbatch-server/src/api.rs: the OpenAI-style endpoints.
pub mod Errors
mod Options
mod Submit
mod Collect
mod Handlers
pub mod Validation
pub mod Queued
pub mod Agreement
pub use Errors.{ApiError, ErrorKind, ErrorText}
unfoldable pub use Errors.{
  invalid, model_not_found, queue_full, unavailable, generation, internal, malformed_json,
}
pub use Options.{PromptField, StopField, SubmitParams, Choices, Limits}
unfoldable pub use Options.{into_single_prompt, into_vec, validate_options}
pub use Submit.{Served, continuous, naive, AppState, Host, GenerationHandle}
unfoldable pub use Submit.{
  hash_tokens, make_request, enqueue, at_world, send_request, submit_tokens, submit_prompt,
}
pub use Collect.{CollectedGeneration, Answer}
unfoldable pub use Collect.{collect_from, collect_generation, collect_completion}
pub use Handlers.{Response, CompletionRequest, ChatCompletionRequest}
unfoldable pub use Handlers.{
  checked_prompt, check_messages, checked_chat, healthz, models, stream_response,
  collected_response, serve, completions, chat_completions,
}
