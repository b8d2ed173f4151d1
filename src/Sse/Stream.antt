-- ===== src/Sse/Stream.antt =====
-- `openai_stream`: the events that a stream yields for the items of its channel, and whether it
-- cancels the generation. The items are those that the receiver gets; after the last one the channel
-- is closed.
use hotbatch.Base.{
  ℕ, Bool, true, false, ◌&&◌, Option, none, some, List, [], ◌∷◌, ◌++◌, ◌==◌, if◌then◌else◌,
  is_empty, Result, ok, err, panic, Text, Unicode,
}
use hotbatch.Sequence.{FinishReason, stop_reached}
use hotbatch.Message.{StreamItem, token, done, error}
use hotbatch.Tokenizer.{ModelName, TokenizerBundle, decode}
use hotbatch.Sse.Defs.{
  FilterUpdate, continue_with, stop_with, FilterError, changed_text, stop_in_emitted,
  buffering_crossed, TextOutputFilter, new, push, finish,
}
use hotbatch.Api.Errors.{
  ApiError, ErrorText, generation, not_decoded, generation_failed, ended_early,
}
use hotbatch.Api.Errors

pub data StreamKind : Type 0 where
  completion chat : StreamKind

-- The payloads, with the request's id, the model's name, and what stands in the one choice. A chat
-- choice has a `content`, or an empty `delta`.
pub data Frame : Type 0 where
  completion_chunk : ℕ → ModelName → Text → Option FinishReason → Frame
  chat_chunk : ℕ → ModelName → Option Text → Option FinishReason → Frame
  error_event : ApiError → Frame
  done_marker : Frame

-- `trim_end_matches`
unfoldable pub trim_end : ℕ → Text → Text
trim_end c [] = []
trim_end c (x ∷ xs) = let rest = trim_end c xs in if is_empty rest && x == c then [] else x ∷ rest

-- The text of a filter's error.
unfoldable pub filter_text : FilterError → ErrorText
filter_text changed_text = Errors.decoding_changed
filter_text stop_in_emitted = Errors.stop_already_shown
filter_text buffering_crossed = Errors.buffering_crossed

-- The chunk for a token's text.
unfoldable pub token_chunk : StreamKind → ℕ → ModelName → Text → Frame
token_chunk completion id model text = completion_chunk id model text none
token_chunk chat id model text = chat_chunk id model (some text) none

-- The chunk that a matched stop sequence ends with.
unfoldable pub stop_chunk : StreamKind → ℕ → ModelName → Frame
stop_chunk completion id model = completion_chunk id model [] (some stop_reached)
stop_chunk chat id model = chat_chunk id model none (some stop_reached)

-- The last chunk, with what the filter still held.
unfoldable pub last_chunk : StreamKind → ℕ → ModelName → Text → FinishReason → Frame
last_chunk completion id model remaining reason = completion_chunk id model remaining (some reason)
last_chunk chat id model remaining reason =
    chat_chunk id model (if is_empty remaining then none else some remaining) (some reason)

-- A text decoded, freed of the character that stands for an incomplete one, and put through the
-- filter, for one more token. The error is the one that is sent.
unfoldable pub next_text :
    Unicode
    → TokenizerBundle
    → List ℕ
    → TextOutputFilter
    → Result ErrorText (FilterUpdate × TextOutputFilter)
unfolding trim_end filter_text
next_text U bundle tokens output = elim (decode U bundle tokens) [
  | none ↦ err not_decoded
  | some decoded ↦ elim (push output (trim_end 0xfffd decoded)) [
    | ok r ↦ ok r
    | err e ↦ err (filter_text e)
    | panic ↦ panic
  ]
]

-- The same at the end of the generation, where nothing is held back.
unfoldable pub rest_text :
    Unicode → TokenizerBundle → List ℕ → TextOutputFilter → Result ErrorText Text
unfolding filter_text
rest_text U bundle tokens output = elim (decode U bundle tokens) [
  | none ↦ err not_decoded
  | some decoded ↦ elim (finish output decoded) [
    | ok (text, output') ↦ ok text
    | err e ↦ err (filter_text e)
    | panic ↦ panic
  ]
]

module _ (U : Unicode) (bundle : TokenizerBundle) (kind : StreamKind) (id : ℕ)
    (model : ModelName) where
  -- The loop, with the tokens so far and the filter. `none` is a panic.
  unfoldable pub stream_from :
      List ℕ → TextOutputFilter → List StreamItem → Option (List Frame × Bool)
  unfolding next_text rest_text token_chunk stop_chunk last_chunk
  stream_from tokens output [] = some (error_event (generation ended_early) ∷ [], false)
  stream_from tokens output (token t ∷ items) =
      elim (next_text U bundle (tokens ++ (t ∷ [])) output) [
        | err e ↦ some (error_event (generation e) ∷ [], false)
        | panic ↦ none
        | ok (stop_with text, output') ↦
            some (
              token_chunk kind id model text ∷ (stop_chunk kind id model ∷ (done_marker ∷ [])),
              true,
            )
        | ok (continue_with text, output') ↦ elim (stream_from (tokens ++ (t ∷ [])) output' items) [
          | some (frames, cancelled) ↦ some (token_chunk kind id model text ∷ frames, cancelled)
          | none ↦ none
        ]
      ]
  stream_from tokens output (done reason ∷ items) = elim (rest_text U bundle tokens output) [
    | err e ↦ some (error_event (generation e) ∷ [], false)
    | panic ↦ none
    | ok text ↦ some (last_chunk kind id model text reason ∷ (done_marker ∷ []), false)
  ]
  stream_from tokens output (error message ∷ items) =
      some (error_event (generation (generation_failed message)) ∷ [], false)

  unfoldable pub openai_stream : List Text → List StreamItem → Option (List Frame × Bool)
  unfolding stream_from new
  openai_stream stops items = stream_from [] (new stops) items
