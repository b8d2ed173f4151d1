-- ===== src/Scheduler/Defs.antt =====
-- The scheduler's state, what it asks the runtime, and the reaping of finished sequences.
use hotbatch.Base.{
  ℕ, Bool, Option, none, some, List, [], ◌∷◌, min, ltb, leb, ◌==◌, if◌then◌else◌, length,
}
use hotbatch.Base.Checked.{checked_add}
use hotbatch.KvCache.{Tensors, SlabKvCache, free}
use hotbatch.Sampler.{Floats}
use hotbatch.Sequence.{
  GenerationRequest, Sequence, is_done, cancel, fail, decode_position, prompt_len, max_new_tokens,
}
use hotbatch.Message.{
  Message, RequestError, empty_prompt, no_tokens_requested, length_overflowed, over_token_limit,
  over_capacity, over_model_capacity,
}
use hotbatch.Metrics.{Metrics, record_cancelled, set_running}
use hotbatch.Runtime.{Runtime}
use hotbatch.Delivery.{try_send_error}
use hotbatch.Queue.{Shared}
use hotbatch.Model.{Backend}

-- What the scheduler is built on: tensors, floats, the runtime, and the model's backend.
pub record Engine : Type 1 where
  pub tensors : Tensors
  pub floats : Floats
  pub runtime : Runtime
  pub backend : Backend tensors

pub record Config : Type 0 where
  pub max_running_seqs : ℕ
  pub max_new_tokens : ℕ
  pub max_seq_len : ℕ
  pub max_queue_depth : ℕ

-- How a step of the scheduler ends. Running out of fuel is the model's own.
pub data Exec {ℓ} (A : Type ℓ) : Type ℓ where
  finished : A → Exec A
  panicked : Exec A
  out_of_fuel : Exec A

module _ (E : Engine) where
  open E use {tensors, runtime, backend}

  pub record Scheduler : Type 0 where
    pub config : Config
    pub shared : Shared runtime
    pub running : List Sequence
    pub kv_cache : SlabKvCache tensors.Tensor

  unfoldable pub new : Config → Shared runtime → SlabKvCache tensors.Tensor → Scheduler
  new config shared kv = record { config = config; shared = shared; running = []; kv_cache = kv }

  unfoldable pub sender_is_closed : ℕ → Shared runtime → Bool × Shared runtime
  sender_is_closed c s = let (b, w) = runtime.is_closed c s.world in (b, record s { world = w })

  unfoldable pub response_is_done : ℕ → Shared runtime → Bool × Shared runtime
  response_is_done c s = let (b, w) = runtime.is_cancelled c s.world in (b, record s { world = w })

  -- The scheduler ignores whether an error could be sent.
  unfoldable pub send_error : ℕ → Message → Shared runtime → Shared runtime
  unfolding try_send_error
  send_error c m s = record s { world = (try_send_error runtime c m s.world).1 }

  unfoldable pub note : (Metrics → Metrics) → Shared runtime → Shared runtime
  note f s = record s { metrics = f s.metrics }

  -- The body of the loop of `remove_closed_sequences`.
  unfoldable pub mark_closed : Sequence → Shared runtime → Sequence × Shared runtime
  unfolding sender_is_closed response_is_done note
  mark_closed q s =
      let (over, s1) = response_is_done q.response_done s in
      let (closed, s2) = sender_is_closed q.sender s1 in
      if over
      then (cancel q, s1)
      else if closed
      then (cancel q, note record_cancelled s2)
      else (q, s2)

  -- The body of the loop of `remove_sequences_past_model_capacity`.
  unfoldable pub mark_over : Sequence → Shared runtime → Sequence × Shared runtime
  unfolding send_error
  mark_over q s =
      if leb backend.max_positions (decode_position q)
      then (
        fail q,
        send_error q.sender (over_model_capacity (decode_position q) backend.max_positions q.id) s,
      )
      else (q, s)

  -- `for seq in &mut self.running`
  unfoldable pub each :
      (Sequence → Shared runtime → Sequence × Shared runtime)
      → List Sequence
      → Shared runtime
      → List Sequence × Shared runtime
  each body [] s = ([], s)
  each body (q ∷ qs) s =
      let (q', s1) = body q s in let (qs', s2) = each body qs s1 in (q' ∷ qs', s2)

  -- `retain_mut` of `reap_done_sequences`: a sequence that is done gives its slot back and goes.
  unfoldable pub reap :
      List Sequence → SlabKvCache tensors.Tensor → List Sequence × SlabKvCache tensors.Tensor
  reap [] c = ([], c)
  reap (q ∷ qs) c =
      let (rest, c') = reap qs (if is_done q then free c q.kv_handle else c) in
      ((if is_done q then rest else q ∷ rest), c')

  unfoldable pub reap_done_sequences : Scheduler → Scheduler
  unfolding note
  reap_done_sequences s =
      let (kept, c) = reap s.running s.kv_cache in
      record s { running = kept; kv_cache = c; shared = note (set_running (length kept)) s.shared }

  unfoldable pub remove_closed_sequences : Scheduler → Scheduler
  unfolding mark_closed
  remove_closed_sequences s =
      let (marked, shared) = each mark_closed s.running s.shared in
      reap_done_sequences (record s { running = marked; shared = shared })

  unfoldable pub remove_sequences_past_model_capacity : Scheduler → Scheduler
  unfolding mark_over
  remove_sequences_past_model_capacity s =
      let (marked, shared) = each mark_over s.running s.shared in
      reap_done_sequences (record s { running = marked; shared = shared })

  -- `None` is `Ok(())`.
  unfoldable pub validate_request : Scheduler → GenerationRequest → Option RequestError
  unfolding prompt_len max_new_tokens
  validate_request s req =
      if prompt_len req == 0
      then some empty_prompt
      else if max_new_tokens req == 0
      then some no_tokens_requested
      else if ltb s.config.max_new_tokens (max_new_tokens req)
      then some (over_token_limit (max_new_tokens req) s.config.max_new_tokens)
      else elim (checked_add (prompt_len req) (max_new_tokens req)) [
        | none ↦ some length_overflowed
        | some required ↦
            let limit =
              min (min s.config.max_seq_len s.kv_cache.max_seq_len) backend.max_positions in
            if ltb limit required then some (over_capacity required limit) else none
      ]
