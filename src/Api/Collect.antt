-- ===== src/Api/Collect.antt =====
-- `collect_generation` and the answers made of it.
use hotbatch.Base.{
  ℕ, ◌+◌, Bool, true, false, List, [], ◌∷◌, ◌++◌, length, Result, ok, err, panic, Text, Unicode,
}
use hotbatch.Sequence.{FinishReason, stop_reached}
use hotbatch.Message.{StreamItem, token, done, error}
use hotbatch.Tokenizer.{ModelName, TokenizerBundle}
use hotbatch.Sse.{TextOutputFilter, new, continue_with, stop_with, next_text, rest_text}
use hotbatch.Api.Errors.{ApiError, generation, generation_failed, ended_early}

pub record CollectedGeneration : Type 0 where
  pub text : Text
  pub completion_tokens : ℕ
  pub reason : FinishReason

-- The JSON of a finished request: the id, the model, the one choice and the usage.
pub record Answer : Type 0 where
  pub id : ℕ
  pub model : ModelName
  pub text : Text
  pub finish_reason : FinishReason
  pub prompt_tokens : ℕ
  pub completion_tokens : ℕ
  pub total_tokens : ℕ

module _ (U : Unicode) (bundle : TokenizerBundle) where
  -- The loop, with the tokens and the text so far and the filter. The Boolean is whether
  -- `stop_generation` was called.
  unfoldable pub collect_from :
      List ℕ
      → Text
      → TextOutputFilter
      → List StreamItem
      → Result ApiError (CollectedGeneration × Bool)
  unfolding next_text rest_text
  collect_from tokens text output [] = err (generation ended_early)
  collect_from tokens text output (token t ∷ items) =
      elim (next_text U bundle (tokens ++ (t ∷ [])) output) [
        | err e ↦ err (generation e)
        | panic ↦ panic
        | ok (stop_with fragment, output') ↦ ok (
          record {
            text = text ++ fragment;
            completion_tokens = length (tokens ++ (t ∷ []));
            reason = stop_reached;
          },
          true,
        )
        | ok (continue_with fragment, output') ↦
            collect_from (tokens ++ (t ∷ [])) (text ++ fragment) output' items
      ]
  collect_from tokens text output (done reason ∷ items) = elim (rest_text U bundle tokens output) [
    | err e ↦ err (generation e)
    | panic ↦ panic
    | ok remaining ↦ ok (
      record { text = text ++ remaining; completion_tokens = length tokens; reason = reason },
      false,
    )
  ]
  collect_from tokens text output (error message ∷ items) =
      err (generation (generation_failed message))

  unfoldable pub collect_generation :
      List Text → List StreamItem → Result ApiError (CollectedGeneration × Bool)
  unfolding collect_from new
  collect_generation stops items = collect_from [] [] (new stops) items

  -- `collect_completion` and `collect_chat_completion` make the same answer in two JSON forms.
  unfoldable pub collect_completion :
      ℕ → ModelName → ℕ → List Text → List StreamItem → Result ApiError (Answer × Bool)
  unfolding collect_generation
  collect_completion id model prompt_tokens stops items = elim (collect_generation stops items) [
    | err e ↦ err e
    | panic ↦ panic
    | ok (generated, stopped) ↦ ok (
      record {
        id = id;
        model = model;
        text = generated.text;
        finish_reason = generated.reason;
        prompt_tokens = prompt_tokens;
        completion_tokens = generated.completion_tokens;
        total_tokens = prompt_tokens + generated.completion_tokens;
      },
      stopped,
    )
  ]
