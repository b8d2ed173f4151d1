-- ===== src/Api/Options.antt =====
-- The fields of a request and `validate_options`.
use hotbatch.Base.{
  ℕ, Bool, true, false, not, ◌&&◌, ◌||◌, Option, none, some, List, [], ◌∷◌, min, ltb, ◌==◌,
  if◌then◌else◌, length, is_empty, Result, ok, err, panic, Text, Unicode, is_blank,
}
use hotbatch.Sampler.{Floats}
use hotbatch.Tokenizer.{ModelName, gpt2, tiny_gpt2, scripted, normalize_model_name}
use hotbatch.Api.Errors
use hotbatch.Api.Errors.{ApiError, invalid, model_not_found, rejected, rejected_at}

pub data PromptField : Type 0 where
  string : Text → PromptField
  strings : List Text → PromptField

unfoldable pub into_single_prompt : PromptField → Result ApiError Text
into_single_prompt (string prompt) = ok prompt
into_single_prompt (strings []) =
    err (invalid Errors.prompt (rejected Errors.invalid_prompt) Errors.invalid_prompt)
into_single_prompt (strings (prompt ∷ [])) = ok prompt
into_single_prompt (strings (prompt ∷ (other ∷ prompts))) = err (
    invalid Errors.prompt (rejected Errors.multiple_prompts_not_supported)
      Errors.multiple_prompts_not_supported)

pub data StopField : Type 0 where
  one : Text → StopField
  many : List Text → StopField

unfoldable pub into_vec : StopField → List Text
into_vec (one stop) = stop ∷ []
into_vec (many stops) = stops

-- The parameters that a request may leave out. A float is its bit pattern.
pub record Choices : Type 0 where
  pub model : Option Text
  pub max_tokens : Option ℕ
  pub temperature : Option ℕ
  pub top_p : Option ℕ
  pub top_k : Option ℕ
  pub stop : Option StopField
  pub seed : Option ℕ
  pub priority : Option ℕ

pub record SubmitParams : Type 0 where
  pub max_tokens : ℕ
  pub temperature : ℕ
  pub top_p : ℕ
  pub top_k : Option ℕ
  pub stops : List Text
  pub seed : ℕ
  pub priority : ℕ

-- What `validate_options` reads of the server's state.
pub record Limits : Type 0 where
  pub model_name : ModelName
  pub max_new_tokens : ℕ
  pub max_seq_len : ℕ

abbrev pub default_max_tokens : ℕ
default_max_tokens = 16

abbrev pub max_stop_sequences : ℕ
max_stop_sequences = 4

abbrev pub or_else {ℓ} : {A : Type ℓ} → Option A → A → A
or_else none d = d
or_else (some a) d = a

abbrev pub same_model : Option ModelName → ModelName → Bool
same_model (some gpt2) gpt2 = true
same_model (some tiny_gpt2) tiny_gpt2 = true
same_model (some scripted) scripted = true
same_model _ _ = false

abbrev pub any_blank : Unicode → List Text → Bool
any_blank U [] = false
any_blank U (t ∷ ts) = is_blank U.is_whitespace t || any_blank U ts

-- The literals 1.0 and 2.0 as f32.
abbrev pub one_f32 : ℕ
one_f32 = 0x3f80_0000

abbrev pub two_f32 : ℕ
two_f32 = 0x4000_0000

module _ (U : Unicode) (F : Floats) where
  -- The requested model, if any, is the one that is served.
  unfoldable pub model_ok : Limits → Option Text → Bool
  unfolding normalize_model_name
  model_ok limits none = true
  model_ok limits (some name) = same_model (normalize_model_name name) limits.model_name

  unfoldable pub stops_of : Option StopField → Result ApiError (List Text)
  unfolding into_vec
  stops_of none = ok []
  stops_of (some field) =
      if is_empty (into_vec field)
      then err (invalid Errors.stop (rejected Errors.invalid_stop) Errors.invalid_stop)
      else ok (into_vec field)

  -- The tests on the stop sequences, and the result.
  unfoldable pub with_stops : SubmitParams → Result ApiError SubmitParams
  with_stops params =
      if ltb max_stop_sequences (length params.stops)
      then err (
          invalid Errors.stop (rejected_at Errors.too_many_stop_sequences max_stop_sequences)
            Errors.too_many_stop_sequences)
      else if any_blank U params.stops
      then err (invalid Errors.stop (rejected Errors.invalid_stop) Errors.invalid_stop)
      else ok params

  unfoldable pub validate_options : Limits → Choices → Result ApiError SubmitParams
  unfolding model_ok stops_of with_stops
  validate_options limits c =
      let max_tokens = or_else c.max_tokens (min default_max_tokens limits.max_new_tokens) in
      let temperature = or_else c.temperature 0 in
      let top_p = or_else c.top_p one_f32 in
      if not (model_ok limits c.model)
      then err (model_not_found (or_else c.model []))
      else if max_tokens == 0
      then err
          (invalid Errors.max_tokens (rejected Errors.invalid_max_tokens) Errors.invalid_max_tokens)
      else if ltb limits.max_new_tokens max_tokens
      then err (
          invalid Errors.max_tokens (rejected_at Errors.max_tokens_exceeded limits.max_new_tokens)
            Errors.max_tokens_exceeded)
      else if not (F.is_finite32 temperature)
          || not (F.le32 0 temperature && F.le32 temperature two_f32)
      then err (
          invalid Errors.temperature (rejected Errors.invalid_temperature)
            Errors.invalid_temperature)
      else if not (F.is_finite32 top_p && (F.lt32 0 top_p && F.le32 top_p one_f32))
      then err (invalid Errors.top_p (rejected Errors.invalid_top_p) Errors.invalid_top_p)
      else if or_else c.top_k 1 == 0
      then err (invalid Errors.top_k (rejected Errors.invalid_top_k) Errors.invalid_top_k)
      else elim (stops_of c.stop) [
        | err e ↦ err e
        | panic ↦ panic
        | ok stops ↦ with_stops (record {
          max_tokens = max_tokens;
          temperature = temperature;
          top_p = top_p;
          top_k = c.top_k;
          stops = stops;
          seed = or_else c.seed 0;
          priority = or_else c.priority 5;
        })
      ]
