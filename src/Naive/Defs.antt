-- ===== src/Naive/Defs.antt =====
-- Admission by permits, and `run_naive_request`. The state of the model's lock is the runtime's: how
-- waiting for it ends is an argument.
use hotbatch.Base.{
  ℕ, zero, suc, ◌-◌, true, false, Option, none, some, [], ◌∷◌, max, ltb, if◌then◌else◌, ok, err,
  panic,
}
use hotbatch.Base.Checked.{checked_add, saturating_add}
use hotbatch.KvCache.{SlabKvCache, free}
use hotbatch.KvCache
use hotbatch.Sequence.{
  GenerationRequest, Sequence, prompt_len, max_new_tokens, mark_running, is_done, cancel,
}
use hotbatch.Sequence
use hotbatch.Message.{Message, shutting_down, naive_failed, cache_failed, no_row}
use hotbatch.Metrics.{
  Metrics, set_queue_depth, set_running, record_cancelled, record_step, set_batch_utilization,
}
use hotbatch.Queue.{Shared}
use hotbatch.Model.{DecodeLogits, passed, failed, row, prefill, forward}
use hotbatch.Scheduler.{
  Engine, Exec, finished, panicked, out_of_fuel, note, response_is_done, sender_is_closed, input_of,
  emit,
}

-- `AdmissionControl::try_acquire`, on the number of accepted requests.
unfoldable pub try_acquire : ℕ → ℕ → Metrics → Option (ℕ × Metrics)
try_acquire max_queue_depth accepted m =
    if ltb max_queue_depth accepted then none else elim (checked_add accepted 1) [
      | none ↦ none
      | some n ↦ some (n, set_queue_depth (n - 1) m)
    ]

-- Dropping the permit.
unfoldable pub release_permit : ℕ → Metrics → ℕ × Metrics
release_permit accepted m = (accepted - 1, set_queue_depth (accepted - 1 - 1) m)

-- `Ok(())`, or `Err` with its text.
pub data Answer : Type 0 where
  fine : Answer
  failure : Message → Answer

-- How the `select!` for the model's lock ended.
pub data Turn : Type 0 where
  shutdown_came response_over consumer_gone got_model : Turn

-- After some tests: the loop is left, goes on, or has panicked.
pub data Check (R : Type 0) : Type 0 where
  leave : Answer → Sequence → R → Check R
  go : Sequence → R → Check R
  broken : Check R

module _ (E : Engine) (wait_for_model : E.runtime.World → Turn × E.runtime.World) (token : ℕ) where
  open E use {runtime, backend, tensors}

  -- The tests before `model.forward`.
  unfoldable pub before_forward : Sequence → Shared runtime → Check (Shared runtime)
  before_forward q s =
      let (shut, s1) = response_is_done E token s in
      let (over, s2) = response_is_done E q.response_done s1 in
      let (closed, s3) = sender_is_closed E q.sender s2 in
      if shut
      then leave (failure shutting_down) q s1
      else if over
      then leave fine (cancel q) s2
      else if closed
      then leave fine (cancel q) (note E record_cancelled s3)
      else go q s3

  -- What follows it, to the end of the loop body.
  unfoldable pub after_forward : DecodeLogits → Sequence → Shared runtime → Check (Shared runtime)
  after_forward logits q s =
      let (shut, s1) = response_is_done E token s in
      let (over, s2) = response_is_done E q.response_done s1 in
      if shut
      then leave (failure shutting_down) q s1
      else if over
      then leave fine (cancel q) s2
      else elim (row logits 0) [
        | none ↦ leave (failure (naive_failed (no_row 0))) q s2
        | some r ↦ elim (emit E r q s2) [
          | finished (q', s') ↦ go q' (
              note E (set_batch_utilization 1 1)
                (note E (record_step 1 (if is_done q' then 0 else 1)) s'))
          | panicked ↦ broken
          | out_of_fuel ↦ broken
        ]
      ]

  -- `while !seq.is_done()`
  unfoldable pub decode_loop :
      ℕ
      → Sequence
      → SlabKvCache tensors.Tensor
      → Shared runtime
      → Exec (Answer × Sequence × SlabKvCache tensors.Tensor × Shared runtime)
  unfolding before_forward after_forward
  decode_loop zero q c s = out_of_fuel
  decode_loop (suc fuel) q c s = elim (is_done q) [
    | true ↦ finished (fine, q, c, s)
    | false ↦ elim (before_forward q s) [
      | leave a q' s' ↦ finished (a, q', c, s')
      | broken ↦ panicked
      | go q0 s1 ↦ elim (forward backend (input_of q0 ∷ []) c).0 [
        | failed e ↦
            finished (failure (naive_failed e), q0, (forward backend (input_of q0 ∷ []) c).1, s1)
        | passed logits ↦ elim (after_forward logits q0 s1) [
          | leave a q' s' ↦ finished (a, q', (forward backend (input_of q0 ∷ []) c).1, s')
          | broken ↦ panicked
          | go q' s' ↦ decode_loop fuel q' (forward backend (input_of q0 ∷ []) c).1 s'
        ]
      ]
    ]
  ]

  -- The `async` block.
  unfoldable pub prefill_and_decode :
      ℕ
      → Sequence
      → SlabKvCache tensors.Tensor
      → Shared runtime
      → Exec (Answer × Sequence × SlabKvCache tensors.Tensor × Shared runtime)
  prefill_and_decode fuel q c s =
      let (shut, s1) = response_is_done E token s in
      let (over, s2) = response_is_done E q.response_done s1 in
      if shut
      then finished (failure shutting_down, q, c, s1)
      else if over
      then finished (fine, q, c, s2)
      else let (result, c') = prefill backend q.prompt_tokens q.kv_handle c in
        let (shut', s3) = response_is_done E token s2 in
        let (over', s4) = response_is_done E q.response_done s3 in
        elim result [
          | failed e ↦ finished (failure (naive_failed e), q, c', s2)
          | passed _ ↦
              if shut'
              then finished (failure shutting_down, q, c', s3)
              else if over'
              then finished (fine, q, c', s4)
              else decode_loop fuel (mark_running q) c' s4
        ]

  -- From `SlabKvCache::new` on; the arguments `layers`, `heads` and `dim` are the model's `kv_shape`.
  unfoldable pub generate_one :
      ℕ
      → ℕ × ℕ × ℕ
      → GenerationRequest
      → Shared runtime
      → Exec (Answer × Option (SlabKvCache tensors.Tensor) × Shared runtime)
  generate_one fuel (layers, heads, dim) req s =
      let len = max (saturating_add (prompt_len req) (max_new_tokens req)) 1 in
      elim (Sequence.new req (KvCache.new {Tensor = tensors.Tensor} 1 len layers heads dim)) [
        | err e ↦ finished (failure (naive_failed (cache_failed e)), none, s)
        | panic ↦ panicked
        | ok (q, c) ↦ elim (prefill_and_decode fuel q c (note E (set_running 1) s)) [
          | finished (a, q', c', s') ↦
              finished (a, some (free c' q'.kv_handle), note E (set_running 0) s')
          | panicked ↦ panicked
          | out_of_fuel ↦ out_of_fuel
        ]
      ]

  -- The tests at the start, and again once the model is held.
  unfoldable pub ready : GenerationRequest → Shared runtime → Option Answer × Shared runtime
  ready req s =
      let (shut, s1) = response_is_done E token s in
      let (over, s2) = response_is_done E req.response_done s1 in
      let (closed, s3) = sender_is_closed E req.sender s2 in
      if shut
      then (some (failure shutting_down), s1)
      else if over
      then (some fine, s2)
      else if closed
      then (some fine, note E record_cancelled s3)
      else (none, s3)

  unfoldable pub run_naive_request :
      ℕ
      → ℕ × ℕ × ℕ
      → GenerationRequest
      → Shared runtime
      → Exec (Answer × Option (SlabKvCache tensors.Tensor) × Shared runtime)
  unfolding ready generate_one
  run_naive_request fuel shape req s = elim (ready req s).0 [
    | some a ↦ finished (a, none, (ready req s).1)
    | none ↦
        let (turn, w) = wait_for_model (ready req s).1.world in
        let s2 = record (ready req s).1 { world = w } in
        elim turn [
          | shutdown_came ↦ finished (failure shutting_down, none, s2)
          | response_over ↦ finished (fine, none, s2)
          | consumer_gone ↦ finished (fine, none, note E record_cancelled s2)
          | got_model ↦ elim (ready req s2).0 [
            | some a ↦ finished (a, none, (ready req s2).1)
            | none ↦ generate_one fuel shape req (ready req s2).1
          ]
        ]
  ]
