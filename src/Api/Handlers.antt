-- ===== src/Api/Handlers.antt =====
-- The four endpoints. A request's body is what the JSON library makes of it, or the status of its
-- rejection.
use hotbatch.Base.{
  ℕ, ◌+◌, Bool, false, not, ◌||◌, Option, none, some, List, [], ◌∷◌, if◌then◌else◌, list_eq, Result,
  ok, err, panic, Text, chars, Unicode, is_blank,
}
use hotbatch.Sampler.{Floats}
use hotbatch.Message.{StreamItem}
use hotbatch.Runtime.{Runtime}
use hotbatch.Tokenizer.{ModelName, TokenizerBundle, ChatMessage, chat_template}
use hotbatch.Sse.{StreamKind, completion, chat, Frame, openai_stream}
use hotbatch.Api.Errors
use hotbatch.Api.Errors.{ApiError, invalid, unavailable, malformed_json, rejected, rejected_at}
use hotbatch.Api.Options.{
  PromptField, into_single_prompt, Choices, SubmitParams, or_else, validate_options,
}
use hotbatch.Api.Submit.{AppState, Host, GenerationHandle, submit_prompt, at_world}
use hotbatch.Api.Collect.{Answer, collect_completion}

-- The fields that both requests have stand in `Choices`.
pub record CompletionRequest : Type 0 where
  pub prompt : PromptField
  pub choices : Choices
  pub stream : Option Bool

pub record ChatCompletionRequest : Type 0 where
  pub messages : List ChatMessage
  pub choices : Choices
  pub stream : Option Bool

-- A response; `broken` is a panic of the task. A chat answer has its own JSON form.
pub data Response : Type 0 where
  healthy : Response
  model_list : ModelName → Response
  failure : ApiError → Response
  answer : StreamKind → Answer → Response
  events : List Frame → Response
  broken : Response

module _ (U : Unicode) (F : Floats) where
  -- The prompt of `completions`, not blank.
  unfoldable pub checked_prompt : PromptField → Result ApiError Text
  unfolding into_single_prompt
  checked_prompt field = elim (into_single_prompt field) [
    | err e ↦ err e
    | panic ↦ panic
    | ok prompt ↦
        if is_blank U.is_whitespace prompt
        then err (invalid Errors.prompt (rejected Errors.invalid_prompt) Errors.invalid_prompt)
        else ok prompt
  ]

  abbrev pub known_role : Text → Bool
  known_role role =
      list_eq role (chars "system")
      || (list_eq role (chars "user") || list_eq role (chars "assistant"))

  -- The loop of `chat_completions` over its messages, from an index on.
  unfoldable pub check_messages : ℕ → List ChatMessage → Option ApiError
  check_messages index [] = none
  check_messages index (message ∷ messages) =
      let rest = check_messages (index + 1) messages in
      if not (known_role message.role)
      then some
          (invalid Errors.messages (rejected_at Errors.invalid_role index) Errors.invalid_role)
      else if is_blank U.is_whitespace message.content
      then some (
          invalid Errors.messages (rejected_at Errors.invalid_message_content index)
            Errors.invalid_message_content)
      else rest

  unfoldable pub checked_chat : List ChatMessage → Result ApiError Text
  unfolding check_messages chat_template
  checked_chat [] =
      err (invalid Errors.messages (rejected Errors.invalid_messages) Errors.invalid_messages)
  checked_chat (message ∷ messages) = elim (check_messages 0 (message ∷ messages)) [
    | some e ↦ err e
    | none ↦ ok (chat_template (message ∷ messages))
  ]

  module _ (R : Runtime) (H : Host R) where
    unfoldable pub healthz : AppState R → Response × AppState R
    healthz app =
        let (alive, w) = H.alive app.shared.world in
        ((if alive then healthy else failure unavailable), at_world U R H w app)

    unfoldable pub models : AppState R → Response
    models app = model_list app.limits.model_name

    -- What a submitted request is answered, for the items that its channel delivers, and whether the
    -- answering cancels the generation.
    unfoldable pub stream_response :
        StreamKind
        → ModelName
        → TokenizerBundle
        → List Text
        → GenerationHandle
        → List StreamItem
        → Response × Bool
    unfolding openai_stream
    stream_response kind model bundle stops handle items =
        elim (openai_stream U bundle kind handle.id model stops items) [
          | some (frames, cancelled) ↦ (events frames, cancelled)
          | none ↦ (broken, false)
        ]

    unfoldable pub collected_response :
        StreamKind
        → ModelName
        → TokenizerBundle
        → ℕ
        → List Text
        → GenerationHandle
        → List StreamItem
        → Response × Bool
    unfolding collect_completion
    collected_response kind model bundle prompt_tokens stops handle items =
        elim (collect_completion U bundle handle.id model prompt_tokens stops items) [
          | ok (a, stopped) ↦ (answer kind a, stopped)
          | err e ↦ (failure e, false)
          | panic ↦ (broken, false)
        ]

    -- The end of both endpoints, for a prompt and the parameters: the response, and the generation's
    -- token if the answering cancels it. The items are those that the channel will deliver.
    unfoldable pub serve :
        StreamKind
        → Bool
        → Text
        → SubmitParams
        → (GenerationHandle → List StreamItem)
        → AppState R
        → Response × Bool × AppState R
    unfolding stream_response collected_response
    serve kind stream prompt params items app =
        let (outcome, app') = submit_prompt U R H prompt params app in
        elim outcome [
          | err e ↦ (failure e, false, app')
          | panic ↦ (broken, false, app')
          | ok (handle, prompt_tokens, stops) ↦
              let (response, stopped) =
                if stream
                then stream_response kind app.limits.model_name app.tokenizer stops handle
                    (items handle)
                else collected_response kind app.limits.model_name app.tokenizer prompt_tokens stops
                    handle (items handle) in
              (response, stopped, app')
        ]

    unfoldable pub completions :
        Result ℕ CompletionRequest
        → (GenerationHandle → List StreamItem)
        → AppState R
        → Response × Bool × AppState R
    unfolding checked_prompt serve
    completions panic items app = (broken, false, app)
    completions (err status) items app = (failure (malformed_json status), false, app)
    completions (ok req) items app = elim (checked_prompt req.prompt) [
      | err e ↦ (failure e, false, app)
      | panic ↦ (broken, false, app)
      | ok prompt ↦ elim (validate_options U F app.limits req.choices) [
        | err e ↦ (failure e, false, app)
        | panic ↦ (broken, false, app)
        | ok params ↦ serve completion (or_else req.stream false) prompt params items app
      ]
    ]

    unfoldable pub chat_completions :
        Result ℕ ChatCompletionRequest
        → (GenerationHandle → List StreamItem)
        → AppState R
        → Response × Bool × AppState R
    unfolding checked_chat serve
    chat_completions panic items app = (broken, false, app)
    chat_completions (err status) items app = (failure (malformed_json status), false, app)
    chat_completions (ok req) items app = elim (checked_chat req.messages) [
      | err e ↦ (failure e, false, app)
      | panic ↦ (broken, false, app)
      | ok prompt ↦ elim (validate_options U F app.limits req.choices) [
        | err e ↦ (failure e, false, app)
        | panic ↦ (broken, false, app)
        | ok params ↦ serve chat (or_else req.stream false) prompt params items app
      ]
    ]
