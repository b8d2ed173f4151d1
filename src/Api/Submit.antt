-- ===== src/Api/Submit.antt =====
-- `submit_prompt` and `hash_tokens`.
use Prim.Native.Nat.{bit_xor}
use hotbatch.Base.{
  ℕ, ◌*◌, ◌%◌, Bool, not, ◌||◌, none, some, List, [], ◌∷◌, min, max, ltb, if◌then◌else◌, length,
  is_empty, Result, ok, err, panic, Text, Unicode,
}
use hotbatch.Base.Checked.{word, checked_add, saturating_add}
use hotbatch.Sequence.{GenerationRequest}
use hotbatch.Runtime.{Runtime}
use hotbatch.Queue.{Shared}
use hotbatch.Queue
use hotbatch.Naive.Submit
use hotbatch.Tokenizer.{TokenizerBundle, encode}
use hotbatch.Api.Errors
use hotbatch.Api.Errors.{
  ApiError, invalid, queue_full, unavailable, internal, rejected, too_long, capacity_overflow,
  not_decoded,
}
use hotbatch.Api.Options.{Limits, SubmitParams}

-- FNV-1a over the tokens.
unfoldable pub hash_from : ℕ → List ℕ → ℕ
hash_from hash [] = hash
hash_from hash (token ∷ tokens) = hash_from (bit_xor hash token * 0x1000_0000_01b3 % word) tokens

unfoldable pub hash_tokens : List ℕ → ℕ
unfolding hash_from
hash_tokens tokens = hash_from 0xcbf2_9ce4_8422_2325 tokens

-- The engine behind the endpoints; the naive one has its shutdown token, its number of accepted
-- requests and its queue's depth.
pub data Served : Type 0 where
  continuous : Served
  naive : ℕ → ℕ → ℕ → Served

-- `AppState`, with the state that the tasks share.
pub record AppState (R : Runtime) : Type 0 where
  pub engine : Served
  pub tokenizer : TokenizerBundle
  pub limits : Limits
  pub shared : Shared R

-- What the server asks of its surroundings: `alive.load`; a channel of a capacity, a request id and a
-- cancellation token, all new; and whether the scheduler closes the queue between the refusal of a
-- request and the call of `is_closed` that explains it.
pub record Host (R : Runtime) : Type 0 where
  pub alive : R.World → Bool × R.World
  pub fresh : ℕ → R.World → (ℕ × ℕ × ℕ) × R.World
  pub closed_since : R.World → Bool × R.World

pub record GenerationHandle : Type 0 where
  pub id : ℕ
  pub receiver : ℕ
  pub response_done : ℕ

module _ (U : Unicode) (R : Runtime) (H : Host R) where
  -- The request for the tokens of a prompt; the naming of the channel, the id and the token is given.
  unfoldable pub make_request :
      TokenizerBundle → List ℕ → SubmitParams → ℕ × ℕ × ℕ → ℕ → GenerationRequest
  unfolding hash_tokens
  make_request bundle prompt_tokens params (id, sender, response_done) now = record {
    id = id;
    prompt_tokens = prompt_tokens;
    sampler_config = record {
      temperature = params.temperature;
      top_p = params.top_p;
      top_k = params.top_k;
      stop_sequences = [];
      max_new_tokens = params.max_tokens;
      eos_token = bundle.eos_token;
      seed = params.seed;
    };
    sender = sender;
    priority = params.priority;
    created_at = now;
    prompt_hash = hash_tokens prompt_tokens;
    response_done = response_done;
  }

  -- `match &state.engine`
  unfoldable pub enqueue :
      GenerationRequest → AppState R → Result ApiError GenerationHandle × AppState R
  enqueue req app =
      let handle =
        ok (record { id = req.id; receiver = req.sender; response_done = req.response_done }) in
      elim app.engine [
        | continuous ↦
            let (accepted, shared) = Queue.submit R req app.shared in
            let (since, w) = H.closed_since shared.world in
            if accepted then (handle, record app { shared = shared }) else (
              err (if shared.queue.closed || since then unavailable else queue_full),
              record app { shared = record shared { world = w } },
            )
        | naive token accepted depth ↦
            let (outcome, n, shared) = Submit.submit R token depth accepted app.shared in
            let app' = record app { engine = naive token n depth; shared = shared } in
            elim outcome [
              | ok _ ↦ (handle, app')
              | err Submit.queue_full ↦ (err queue_full, app')
              | err Submit.unavailable ↦ (err unavailable, app')
              | panic ↦ (panic, app')
            ]
      ]

  unfoldable pub at_world : R.World → AppState R → AppState R
  at_world w app = record app { shared = record app.shared { world = w } }

  -- With a new channel for some items: the request is made and put where it waits.
  unfoldable pub send_request :
      ℕ
      → List ℕ
      → SubmitParams
      → AppState R
      → Result ApiError (GenerationHandle × ℕ × List Text) × AppState R
  unfolding make_request enqueue at_world
  send_request output_capacity prompt_tokens params app =
      let (names, w1) = H.fresh (min (max output_capacity 2) 32) app.shared.world in
      let (now, w2) = R.now w1 in
      let req = make_request app.tokenizer prompt_tokens params names now in
      let (alive, w3) = H.alive w2 in
      if not alive
      then (err unavailable, at_world w3 app)
      else let (outcome, app') = enqueue req (at_world w3 app) in
        elim outcome [
          | ok handle ↦ (ok (handle, length prompt_tokens, params.stops), app')
          | err e ↦ (err e, app')
          | panic ↦ (panic, app')
        ]

  -- From the tests on the prompt's tokens on.
  unfoldable pub submit_tokens :
      List ℕ
      → SubmitParams
      → AppState R
      → Result ApiError (GenerationHandle × ℕ × List Text) × AppState R
  unfolding send_request
  submit_tokens prompt_tokens params app =
      if is_empty prompt_tokens
      then (err (invalid Errors.prompt (rejected Errors.invalid_prompt) Errors.invalid_prompt), app)
      else if ltb app.limits.max_seq_len (saturating_add (length prompt_tokens) params.max_tokens)
      then (
        err (
            invalid Errors.max_tokens
              (too_long (length prompt_tokens) params.max_tokens app.limits.max_seq_len)
              Errors.context_length_exceeded),
        app,
      )
      else elim (checked_add params.max_tokens 1) [
        | none ↦ (err (internal capacity_overflow), app)
        | some output_capacity ↦ send_request output_capacity prompt_tokens params app
      ]

  unfoldable pub submit_prompt :
      Text
      → SubmitParams
      → AppState R
      → Result ApiError (GenerationHandle × ℕ × List Text) × AppState R
  unfolding submit_tokens
  submit_prompt prompt params app =
      let (alive, w) = H.alive app.shared.world in
      let app1 = at_world w app in
      if not alive then (err unavailable, app1) else elim (encode U app.tokenizer prompt) [
        | none ↦ (err (invalid Errors.prompt not_decoded Errors.invalid_prompt), app1)
        | some prompt_tokens ↦ submit_tokens prompt_tokens params app1
      ]
