-- ===== src/Api/Errors.antt =====
-- `ApiError` and its constructors. A message is data: one constructor for each text of the source,
-- with the values that it shows.
use hotbatch.Base.{ℕ, ◌==◌, ◌||◌, Option, none, some, Text, if◌then◌else◌}
use hotbatch.Message.{Message}

pub data ErrorKind : Type 0 where
  invalid_request_error rate_limit_error server_error : ErrorKind

pub data Param : Type 0 where
  model prompt messages max_tokens temperature top_p top_k stop : Param

pub data Code : Type 0 where
  invalid_prompt multiple_prompts_not_supported invalid_messages invalid_role
        invalid_message_content :
      Code
  invalid_max_tokens max_tokens_exceeded invalid_temperature invalid_top_p invalid_top_k : Code
  invalid_stop too_many_stop_sequences context_length_exceeded invalid_json : Code
  model_missing queue_is_full scheduler_unavailable generation_error internal_error : Code

pub data ErrorText : Type 0 where
  no_such_model : Text → ErrorText
  retry_later scheduler_is_unavailable capacity_overflow : ErrorText
  -- The rejection's own text, by its status.
  bad_json : ℕ → ErrorText
  -- The fixed texts of the parameters' tests.
  rejected : Code → ErrorText
  -- Those that show a value: an index, a limit, or the three lengths.
  rejected_at : Code → ℕ → ErrorText
  too_long : ℕ → ℕ → ℕ → ErrorText
  not_decoded : ErrorText
  decoding_changed stop_already_shown buffering_crossed : ErrorText
  generation_failed : Message → ErrorText
  ended_early : ErrorText

pub record ApiError : Type 0 where
  pub status : ℕ
  pub message : ErrorText
  pub kind : ErrorKind
  pub param : Option Param
  pub code : Code

unfoldable pub invalid : Param → ErrorText → Code → ApiError
invalid p message code = record {
  status = 400;
  message = message;
  kind = invalid_request_error;
  param = some p;
  code = code;
}

unfoldable pub model_not_found : Text → ApiError
model_not_found name = record {
  status = 404;
  message = no_such_model name;
  kind = invalid_request_error;
  param = some model;
  code = model_missing;
}

unfoldable pub queue_full : ApiError
queue_full = record {
  status = 429;
  message = retry_later;
  kind = rate_limit_error;
  param = none;
  code = queue_is_full;
}

unfoldable pub unavailable : ApiError
unavailable = record {
  status = 503;
  message = scheduler_is_unavailable;
  kind = server_error;
  param = none;
  code = scheduler_unavailable;
}

unfoldable pub generation : ErrorText → ApiError
generation message = record {
  status = 500;
  message = message;
  kind = server_error;
  param = none;
  code = generation_error;
}

unfoldable pub internal : ErrorText → ApiError
internal message = record {
  status = 500;
  message = message;
  kind = server_error;
  param = none;
  code = internal_error;
}

-- The rejection is known by its status.
unfoldable pub malformed_json : ℕ → ApiError
malformed_json status = record {
  status = if status == 413 || status == 415 then status else 400;
  message = bad_json status;
  kind = invalid_request_error;
  param = none;
  code = invalid_json;
}
