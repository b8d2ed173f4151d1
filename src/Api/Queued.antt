-- ===== src/Api/Queued.antt =====
-- A prompt that is accepted is the last request in the queue.
use hotbatch.Base.{
  ℕ, ◌≤◌, ◌<◌, ◌≡◌, refl, inl, inr, ◌||◌, List, [], ◌∷◌, ◌++◌, leb, ltb, arith, length, min, max,
  is_empty, Bool-cases, Option-cases, Result, Result-cases, ok, Text, Unicode,
}
use hotbatch.Base.Checked.{checked_add, saturating_add}
use hotbatch.Sequence.{GenerationRequest, prompt_len, max_new_tokens}
use hotbatch.Runtime.{Runtime}
use hotbatch.Queue.{Shared, pruned}
use hotbatch.Queue
use hotbatch.Tokenizer.{encode}
use hotbatch.Api.Errors.{ApiError}
use hotbatch.Api.Options.{SubmitParams}
use hotbatch.Api.Submit.{
  AppState, Host, GenerationHandle, continuous, make_request, enqueue, at_world, send_request,
  submit_tokens, submit_prompt,
}

module _ (U : Unicode) (R : Runtime) (H : Host R) where
  enqueue-queued :
      (req : GenerationRequest) (app : AppState R) (handle : GenerationHandle)
      → app.engine ≡ continuous
      → (enqueue U R H req app).0 ≡ ok handle
      → ((enqueue U R H req app).1.shared.queue.requests
          ≡ (pruned R app.shared).queue.requests ++ (req ∷ []))
        × (handle.receiver ≡ req.sender)
  unfolding enqueue Queue.submit
  enqueue-queued req app handle engine e =
      elim (Bool-cases (
        (pruned R app.shared).queue.closed
        || leb (pruned R app.shared).queue.max_depth
            (length (pruned R app.shared).queue.requests))) [
              | inl refused ↦ absurd (ground (arith, e, engine, refused))
              | inr accepted ↦
                  (ground (arith, e, engine, accepted), ground (arith, e, engine, accepted))
            ]

  -- What the tests on the way to the queue have made sure of.
  pub record IsSubmitted (params : SubmitParams) (app : AppState R)
      (r : Result ApiError (GenerationHandle × ℕ × List Text) × AppState R) : Type 0 where
    pub request : GenerationRequest
    pub handle : GenerationHandle
    pub at : R.World
    pub answered : r.0 ≡ ok (handle, prompt_len request, params.stops)
    pub queued :
        r.1.shared.queue.requests
        ≡ (pruned R (at_world U R H at app).shared).queue.requests ++ (request ∷ [])
    pub delivers : handle.receiver ≡ request.sender
    pub prompted : 0 < prompt_len request
    pub asked : max_new_tokens request ≡ params.max_tokens
    pub fits : saturating_add (prompt_len request) params.max_tokens ≤ app.limits.max_seq_len

  send_request-IsSubmitted :
      (capacity : ℕ) (prompt_tokens : List ℕ) (params : SubmitParams) (app : AppState R)
      (x : GenerationHandle × ℕ × List Text)
      → app.engine ≡ continuous
      → 0 < length prompt_tokens
      → saturating_add (length prompt_tokens) params.max_tokens ≤ app.limits.max_seq_len
      → (send_request U R H capacity prompt_tokens params app).0 ≡ ok x
      → IsSubmitted params app (send_request U R H capacity prompt_tokens params app)
  unfolding send_request make_request at_world prompt_len max_new_tokens
  send_request-IsSubmitted capacity prompt_tokens params app x engine some_token fits e =
      let (names, w1) = H.fresh (min (max capacity 2) 32) app.shared.world in
      let (now, w2) = R.now w1 in
      let (alive, w3) = H.alive w2 in
      let req = make_request U R H app.tokenizer prompt_tokens params names now in
      let app' = at_world U R H w3 app in
      elim (Bool-cases alive) [
        | inr dead ↦ absurd (ground (arith, e, dead))
        | inl lives ↦ elim (Result-cases (enqueue U R H req app').0) [
          | inr (inl (x, refused)) ↦ absurd (ground (arith, e, lives, refused))
          | inr (inr lost) ↦ absurd (ground (arith, e, lives, lost))
          | inl (handle, taken) ↦
              let (queued, delivers) = enqueue-queued req app' handle engine taken in
              record {
                request = req;
                handle = handle;
                at = w3;
                answered = rw (lives, taken, send_request) refl;
                queued = rw (lives, taken, send_request) queued;
                delivers = delivers;
                prompted = some_token;
                asked = refl;
                fits = fits;
              }
        ]
      ]

  submit_tokens-IsSubmitted :
      (prompt_tokens : List ℕ) (params : SubmitParams) (app : AppState R)
      (x : GenerationHandle × ℕ × List Text)
      → app.engine ≡ continuous
      → (submit_tokens U R H prompt_tokens params app).0 ≡ ok x
      → IsSubmitted params app (submit_tokens U R H prompt_tokens params app)
  unfolding submit_tokens
  submit_tokens-IsSubmitted prompt_tokens params app x engine e =
      elim (Bool-cases (is_empty prompt_tokens)) [
        | inl nil ↦ absurd (ground (arith, e, nil))
        | inr filled ↦
            elim (Bool-cases (
              ltb app.limits.max_seq_len
                (saturating_add (length prompt_tokens) params.max_tokens))) [
                  | inl long ↦ absurd (ground (arith, e, filled, long))
                  | inr short ↦ elim (Option-cases (checked_add params.max_tokens 1)) [
                    | inl over ↦ absurd (ground (arith, e, filled, short, over))
                    | inr (capacity, room) ↦
                        rw (filled, short, room, submit_tokens)
                          (send_request-IsSubmitted capacity prompt_tokens params app x engine
                            (ground (arith, filled)) (ground (arith, short))
                            (rw (filled, short, room, submit_tokens) at e))
                  ]
                ]
      ]

  pub submit_prompt-IsSubmitted :
      (prompt : Text) (params : SubmitParams) (app : AppState R)
      (x : GenerationHandle × ℕ × List Text)
      → app.engine ≡ continuous
      → (submit_prompt U R H prompt params app).0 ≡ ok x
      → IsSubmitted params app (submit_prompt U R H prompt params app)
  unfolding submit_prompt at_world
  submit_prompt-IsSubmitted prompt params app x engine e =
      let (alive, w) = H.alive app.shared.world in
      let app' = at_world U R H w app in
      elim (Bool-cases alive) [
        | inr dead ↦ absurd (ground (arith, e, dead))
        | inl lives ↦ elim (Option-cases (encode U app.tokenizer prompt)) [
          | inl lost ↦ absurd (ground (arith, e, lives, lost))
          | inr (tokens, read) ↦
              let s =
                submit_tokens-IsSubmitted tokens params app' x engine
                  (rw (lives, read, submit_prompt) at e) in
              rw (lives, read, submit_prompt)
                (record {
                  request = s.request;
                  handle = s.handle;
                  at = s.at;
                  answered = s.answered;
                  queued = s.queued;
                  delivers = s.delivers;
                  prompted = s.prompted;
                  asked = s.asked;
                  fits = s.fits;
                })
        ]
      ]
