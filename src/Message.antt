-- ===== src/Message.antt =====
-- The items of a response channel, with the error texts as data: one constructor for each format
-- string, with the values that it shows.
use hotbatch.Base.{ℕ}
use hotbatch.KvCache.{KvError}
use hotbatch.Sequence.{FinishReason}

-- The texts of `validate_request` in scheduler.rs.
pub data RequestError : Type 0 where
  empty_prompt no_tokens_requested length_overflowed : RequestError
  over_token_limit over_capacity : ℕ → ℕ → RequestError

-- The errors of the model's passes.
pub data ModelError : Type 0 where
  prompt_over_capacity : ℕ → ℕ → ModelError
  position_over_capacity : ℕ → ℕ → ℕ → ModelError
  cache_failed : KvError → ModelError
  backend_failed : ℕ → ModelError
  no_row : ℕ → ModelError
  not_one_sequence not_one_token : ℕ → ModelError
  batch_mismatch : ℕ → ℕ → ModelError

pub data Message : Type 0 where
  invalid_request : RequestError → Message
  admission_failed : ℕ → KvError → Message
  prefill_failed : ℕ → ModelError → Message
  decode_failed : ModelError → Message
  row_failed : ℕ → ℕ → Message
  over_model_capacity : ℕ → ℕ → ℕ → Message
  shutting_down : Message
  naive_failed : ModelError → Message

pub data StreamItem : Type 0 where
  token : ℕ → StreamItem
  done : FinishReason → StreamItem
  error : Message → StreamItem
