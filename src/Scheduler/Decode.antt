-- ===== src/Scheduler/Decode.antt =====
-- The decode step of `Scheduler::run`: one batch, one forward pass, one token for each sequence.
use hotbatch.Base.{ℕ, suc, none, some, List, [], ◌∷◌, map, if◌then◌else◌, length}
use hotbatch.Sampler.{sample}
use hotbatch.Sequence.{
  Sequence, cancel, fail, last_token, decode_position, append_token, take_emittable_tokens,
}
use hotbatch.Message.{ModelError, decode_failed, row_failed}
use hotbatch.Metrics.{record_cancelled, record_token, record_step, set_batch_utilization}
use hotbatch.Delivery.{try_send_tokens}
use hotbatch.Queue.{Shared}
use hotbatch.Model.{DecodeInput, DecodeLogits, passed, failed, dim, row, forward}
use hotbatch.Scheduler.Defs.{
  Engine, Scheduler, Exec, finished, panicked, out_of_fuel, sender_is_closed, response_is_done,
  send_error, note, each, reap_done_sequences,
}

-- The row of a sequence in the batch.
unfoldable pub input_of : Sequence → DecodeInput
unfolding last_token decode_position
input_of q = record {
  seq_id = q.id;
  kv_handle = q.kv_handle;
  last_token = last_token q;
  position = decode_position q;
  prompt_hash = q.prompt_hash;
  seed = q.sampler.seed;
}

unfoldable pub build_decode_batch : List Sequence → List DecodeInput
unfolding input_of
build_decode_batch running = map input_of running

module _ (E : Engine) where
  open E use {runtime, floats, backend}

  -- Sampling, appending and sending for one sequence, given its row of logits.
  unfoldable pub emit : List ℕ → Sequence → Shared runtime → Exec (Sequence × Shared runtime)
  emit logits q s =
      let (t, sampler) = sample floats q.sampler logits in
      let (now, w) = runtime.now s.world in
      let (timing, q1) = append_token (record q { sampler = sampler }) t now in
      let s1 =
        note E (record_token timing.first_latency timing.inter_token_latency)
          (record s { world = w }) in
      elim (take_emittable_tokens q1) [
        | none ↦ panicked
        | some (tokens, q2) ↦
            let (sent, w2) = try_send_tokens runtime q2.sender tokens q1.finish_reason s1.world in
            let s2 = record s1 { world = w2 } in
            finished (if sent then (q2, s2) else (cancel q2, note E record_cancelled s2))
      ]

  -- The body of the loop over the running sequences, at index `i`.
  unfoldable pub advance :
      DecodeLogits → ℕ → Sequence → Shared runtime → Exec (Sequence × Shared runtime)
  unfolding emit
  advance logits i q s =
      let (over, s1) = response_is_done E q.response_done s in
      let (closed, s2) = sender_is_closed E q.sender s1 in
      if over
      then finished (cancel q, s1)
      else if closed
      then finished (cancel q, note E record_cancelled s2)
      else elim (row logits i) [
        | none ↦ finished (fail q, send_error E q.sender (row_failed q.id i) s2)
        | some r ↦ emit r q s2
      ]

  unfoldable pub advance_all :
      DecodeLogits → ℕ → List Sequence → Shared runtime → Exec (List Sequence × Shared runtime)
  advance_all logits i [] s = finished ([], s)
  advance_all logits i (q ∷ qs) s = elim (advance logits i q s) [
    | finished (q', s1) ↦ elim (advance_all logits (suc i) qs s1) [
      | finished (qs', s2) ↦ finished (q' ∷ qs', s2)
      | panicked ↦ panicked
      | out_of_fuel ↦ out_of_fuel
    ]
    | panicked ↦ panicked
    | out_of_fuel ↦ out_of_fuel
  ]

  -- `reap_done_sequences`, `record_step` and `set_batch_utilization`, at the end of a step.
  unfoldable pub end_step : ℕ → Scheduler E → Scheduler E
  end_step batch_size s =
      let s1 = reap_done_sequences E s in
      record s1 {
        shared =
            note E (set_batch_utilization batch_size s1.config.max_running_seqs)
              (note E (record_step batch_size (length s1.running)) s1.shared);
      }

  -- The failed pass: every running sequence gets the error and fails.
  unfoldable pub fail_one : ModelError → Sequence → Shared runtime → Sequence × Shared runtime
  fail_one e q s = (fail q, send_error E q.sender (decode_failed e) s)

  -- From `build_decode_batch` to the end of the loop body, for a nonempty batch.
  unfoldable pub decode : Scheduler E → Exec (Scheduler E)
  unfolding end_step fail_one
  decode s =
      let batch = build_decode_batch s.running in
      let (result, kv) = forward backend batch s.kv_cache in
      elim result [
        | passed logits ↦ elim (advance_all logits 0 s.running s.shared) [
          | finished (qs, shared) ↦
              finished
                (end_step (dim batch 0) (record s { running = qs; shared = shared; kv_cache = kv }))
          | panicked ↦ panicked
          | out_of_fuel ↦ out_of_fuel
        ]
        | failed e ↦
            let (qs, shared) = each E (fail_one e) s.running s.shared in
            finished
              (end_step (dim batch 0) (record s { running = qs; shared = shared; kv_cache = kv }))
      ]
