-- ===== src/Api/Agreement.antt =====
-- A client that streams and one that does not get the same.
use hotbatch.Base.{
  ℕ, ◌≡◌, refl, ◌∙◌, ◌⊎◌, inl, inr, Bool, true, false, Option, none, some, List, [], ◌∷◌, ◌++◌,
  append-nil, arith, Result, ok, err, panic, Text, Unicode, Option-cases,
}
use hotbatch.Sequence.{FinishReason, stop_reached}
use hotbatch.Message.{StreamItem, token, done, error}
use hotbatch.Tokenizer.{ModelName, TokenizerBundle, decode}
use hotbatch.Sse.{
  TextOutputFilter, new, continue_with, stop_with, StreamKind, completion, chat, Frame,
  completion_chunk, chat_chunk, error_event, done_marker, push, finish, trim_end, filter_text,
  token_chunk, stop_chunk, last_chunk, next_text, rest_text, stream_from, openai_stream,
}
use hotbatch.Sse.Shown.{push_cases, finish_cases}
use hotbatch.Api.Errors.{
  ApiError, ErrorText, not_decoded, generation, generation_failed, ended_early,
}
use hotbatch.Api.Collect.{CollectedGeneration, collect_from, collect_generation}

-- What a client makes of the events of a stream: it joins the texts up to the first chunk with a
-- finish reason, which the end marker must follow, or takes the error. `panic` is a stream that
-- breaks off.
unfoldable pub replay : Text → List Frame → Result ApiError (Text × FinishReason)
replay text [] = panic
replay text (completion_chunk id model t none ∷ frames) = replay (text ++ t) frames
replay text (completion_chunk id model t (some r) ∷ (done_marker ∷ [])) = ok (text ++ t, r)
replay text (completion_chunk id model t (some r) ∷ frames) = panic
replay text (chat_chunk id model (some t) none ∷ frames) = replay (text ++ t) frames
replay text (chat_chunk id model none none ∷ frames) = replay text frames
replay text (chat_chunk id model (some t) (some r) ∷ (done_marker ∷ [])) = ok (text ++ t, r)
replay text (chat_chunk id model (some t) (some r) ∷ frames) = panic
replay text (chat_chunk id model none (some r) ∷ (done_marker ∷ [])) = ok (text, r)
replay text (chat_chunk id model none (some r) ∷ frames) = panic
replay text (error_event e ∷ []) = err e
replay text (error_event e ∷ (frame ∷ frames)) = panic
replay text (done_marker ∷ frames) = panic

-- What the collected generation says to the client.
abbrev pub told :
    Result ApiError (CollectedGeneration × Bool) → Result ApiError (Text × FinishReason)
told (ok (g, stopped)) = ok (g.text, g.reason)
told (err e) = err e
told panic = panic

-- Whether the collected generation was stopped before its end.
abbrev pub cut_short : Result ApiError (CollectedGeneration × Bool) → Bool
cut_short (ok (g, stopped)) = stopped
cut_short (err e) = false
cut_short panic = false

-- The stream does not break off, says the same, and cancels the generation just if the other does.
abbrev pub Agrees :
    Text → Option (List Frame × Bool) → Result ApiError (CollectedGeneration × Bool) → Type 0
Agrees text streamed collected =
    (frames : List Frame) × (cancelled : Bool) × (streamed ≡ some (frames, cancelled))
    × (replay text frames ≡ told collected)
    × (cut_short collected ≡ cancelled)

push_defined : (f : TextOutputFilter) (decoded : Text) → ¬ (push f decoded ≡ panic)
unfolding push
push_defined f decoded e = ground arith

finish_defined : (f : TextOutputFilter) (decoded : Text) → ¬ (finish f decoded ≡ panic)
unfolding finish
finish_defined f decoded e = ground arith

module _ (U : Unicode) (bundle : TokenizerBundle) where
  next_cases :
      (tokens : List ℕ) (output : TextOutputFilter)
      → ((e : ErrorText) × (next_text U bundle tokens output ≡ err e))
        ⊎ ((text : Text) × (output' : TextOutputFilter) × (next_text U bundle tokens output
              ≡ ok (stop_with text, output')))
        ⊎ ((text : Text) × (output' : TextOutputFilter) × (next_text U bundle tokens output
              ≡ ok (continue_with text, output')))
  unfolding next_text
  next_cases tokens output = elim (Option-cases (decode U bundle tokens)) [
    | inl lost ↦ inl (not_decoded, rw (lost, next_text) refl)
    | inr (decoded, read) ↦ elim (push_cases (push output (trim_end 0xfffd decoded))) [
      | inl (text, f, pushed) ↦ inr (inr (text, f, rw (read, pushed, next_text) refl))
      | inr (inl (text, f, pushed)) ↦ inr (inl (text, f, rw (read, pushed, next_text) refl))
      | inr (inr (inl (e, refused))) ↦ inl (filter_text e, rw (read, refused, next_text) refl)
      | inr (inr (inr lost)) ↦ absurd (push_defined output (trim_end 0xfffd decoded) lost)
    ]
  ]

  rest_cases :
      (tokens : List ℕ) (output : TextOutputFilter)
      → ((e : ErrorText) × (rest_text U bundle tokens output ≡ err e))
        ⊎ ((text : Text) × (rest_text U bundle tokens output ≡ ok text))
  unfolding rest_text
  rest_cases tokens output = elim (Option-cases (decode U bundle tokens)) [
    | inl lost ↦ inl (not_decoded, rw (lost, rest_text) refl)
    | inr (decoded, read) ↦ elim (finish_cases (finish output decoded)) [
      | inl (text, f, ended) ↦ inr (text, rw (read, ended, rest_text) refl)
      | inr (inl (e, refused)) ↦ inl (filter_text e, rw (read, refused, rest_text) refl)
      | inr (inr lost) ↦ absurd (finish_defined output decoded lost)
    ]
  ]

  module _ (kind : StreamKind) (id : ℕ) (model : ModelName) where
    stop_replayed :
        (k : StreamKind) (shown text : Text)
        → replay shown (token_chunk k id model text ∷ (stop_chunk k id model ∷ (done_marker ∷ [])))
          ≡ ok (shown ++ text, stop_reached)
    unfolding replay token_chunk stop_chunk
    stop_replayed completion shown text = rw (append-nil (shown ++ text)) refl
    stop_replayed chat shown text = refl

    token_replayed :
        (k : StreamKind) (shown text : Text) (frames : List Frame)
        → replay shown (token_chunk k id model text ∷ frames) ≡ replay (shown ++ text) frames
    unfolding replay token_chunk
    token_replayed completion shown text frames = refl
    token_replayed chat shown text frames = refl

    last_replayed :
        (k : StreamKind) (shown text : Text) (reason : FinishReason)
        → replay shown (last_chunk k id model text reason ∷ (done_marker ∷ []))
          ≡ ok (shown ++ text, reason)
    unfolding replay last_chunk
    last_replayed completion shown text reason = refl
    last_replayed chat shown [] reason = rw (append-nil shown) refl
    last_replayed chat shown (c ∷ text) reason = refl

    stream-Agrees :
        (tokens : List ℕ) (shown : Text) (output : TextOutputFilter) (items : List StreamItem)
        → Agrees shown
            (stream_from U bundle kind id model tokens output items)
            (collect_from U bundle tokens shown output items)
    unfolding stream_from collect_from replay
    stream-Agrees tokens shown output [] =
        (error_event (generation ended_early) ∷ [], false, refl, refl, refl)
    stream-Agrees tokens shown output (error message ∷ items) =
        (error_event (generation (generation_failed message)) ∷ [], false, refl, refl, refl)
    stream-Agrees tokens shown output (done reason ∷ items) = elim (rest_cases tokens output) [
      | inl (e, refused) ↦ (
        error_event (generation e) ∷ [],
        false,
        rw (refused, stream_from) refl,
        rw (refused, told, collect_from) refl,
        rw (refused, cut_short, collect_from) refl,
      )
      | inr (text, ended) ↦ (
        last_chunk kind id model text reason ∷ (done_marker ∷ []),
        false,
        rw (ended, stream_from) refl,
        rw (ended, told, collect_from) (last_replayed kind shown text reason),
        rw (ended, cut_short, collect_from) refl,
      )
    ]
    stream-Agrees tokens shown output (token t ∷ items) =
        elim (next_cases (tokens ++ (t ∷ [])) output) [
          | inl (e, refused) ↦ (
            error_event (generation e) ∷ [],
            false,
            rw (refused, stream_from) refl,
            rw (refused, told, collect_from) refl,
            rw (refused, cut_short, collect_from) refl,
          )
          | inr (inl (text, output', stopped)) ↦ (
            token_chunk kind id model text ∷ (stop_chunk kind id model ∷ (done_marker ∷ [])),
            true,
            rw (stopped, stream_from) refl,
            rw (stopped, told, collect_from) (stop_replayed kind shown text),
            rw (stopped, cut_short, collect_from) refl,
          )
          | inr (inr (text, output', went_on)) ↦
              let (frames, cancelled, streamed, says, cuts) =
                stream-Agrees (tokens ++ (t ∷ [])) (shown ++ text) output' items in
              (
                token_chunk kind id model text ∷ frames,
                cancelled,
                rw (went_on, streamed, stream_from) refl,
                rw (went_on, told, collect_from) (token_replayed kind shown text frames ∙ says),
                rw (went_on, cut_short, collect_from) cuts,
              )
        ]

    -- A request that streams and one that waits get the same: for the same stop sequences and the same
    -- items of the channel, the stream does not break off, a client that joins its texts has the text
    -- and the finish reason of the collected answer, or its error, and the stream cancels the
    -- generation just if the collected one does. The tokenizer is any, and so is the form of the stream.
    pub stream-collect :
        (stops : List Text) (items : List StreamItem)
        → Agrees []
            (openai_stream U bundle kind id model stops items)
            (collect_generation U bundle stops items)
    unfolding openai_stream collect_generation
    stream-collect stops items = stream-Agrees [] [] (new stops) items
