-- ===== src/Scheduler/Admission.antt =====
-- The admission loop of `Scheduler::run`.
use hotbatch.Base.{
  ℕ, zero, suc, Bool, true, false, not, ◌||◌, Option, none, some, [], ◌∷◌, ◌++◌, ltb, leb,
  if◌then◌else◌, length, ok, err, panic,
}
use hotbatch.KvCache.{allocated_slots, free}
use hotbatch.Sequence.{GenerationRequest, Sequence, mark_running}
use hotbatch.Sequence
use hotbatch.Message.{invalid_request, admission_failed, prefill_failed}
use hotbatch.Metrics.{record_cancelled}
use hotbatch.Queue.{Shared, submit_all, try_pop}
use hotbatch.Model.{passed, failed, prefill}
use hotbatch.Scheduler.Defs.{
  Engine, Scheduler, Exec, finished, panicked, out_of_fuel, sender_is_closed, response_is_done,
  send_error, note, validate_request,
}

module _ (E : Engine) where
  open E use {runtime, backend}

  -- The requests that other tasks have submitted come into the queue.
  unfoldable pub arrive : Shared runtime → Shared runtime
  arrive s =
      let (reqs, w) = runtime.arrivals s.world in submit_all runtime reqs (record s { world = w })

  unfoldable pub pop : Scheduler E → Option GenerationRequest × Scheduler E
  pop s =
      let (req, shared) = try_pop runtime (arrive s.shared) in (req, record s { shared = shared })

  -- The sequence is cancelled or failed and dropped: its slot is released.
  unfoldable pub release : Sequence → Scheduler E → Scheduler E
  release q s = record s { kv_cache = free s.kv_cache q.kv_handle }

  -- The two tests after `Sequence::new` and again after `prefill`: whether the consumer has finished
  -- or gone, in which case the sequence is released.
  unfoldable pub drop_if_gone : Sequence → Scheduler E → Bool × Scheduler E
  unfolding release
  drop_if_gone q s =
      let (over, s1) = response_is_done E q.response_done s.shared in
      let (closed, s2) = sender_is_closed E q.sender s1 in
      if over
      then (true, release q (record s { shared = s1 }))
      else if closed
      then (true, release q (record s { shared = note E record_cancelled s2 }))
      else (false, record s { shared = s2 })

  -- From `prefill` to `running.push(seq)`.
  unfoldable pub prefill_and_run : Sequence → Scheduler E → Scheduler E
  unfolding drop_if_gone
  prefill_and_run q s =
      let (result, kv) = prefill backend q.prompt_tokens q.kv_handle s.kv_cache in
      let s1 = record s { kv_cache = kv } in
      elim result [
        | passed _ ↦
            let (gone, s2) = drop_if_gone (mark_running q) s1 in
            if gone then s2 else record s2 { running = s2.running ++ (mark_running q ∷ []) }
        | failed e ↦
            release q
              (record s1 { shared = send_error E q.sender (prefill_failed q.id e) s1.shared })
      ]

  -- From `Sequence::new` on.
  unfoldable pub start_sequence : GenerationRequest → Scheduler E → Exec (Scheduler E)
  start_sequence req s = elim (Sequence.new req s.kv_cache) [
    | ok (q, kv) ↦
        let (gone, s1) = drop_if_gone q (record s { kv_cache = kv }) in
        finished (if gone then s1 else prefill_and_run q s1)
    | err e ↦
        finished
          (record s { shared = send_error E req.sender (admission_failed req.id e) s.shared })
    | panic ↦ panicked
  ]

  -- One round of the admission loop, for the request that `try_pop` gave.
  unfoldable pub admit_one : GenerationRequest → Scheduler E → Exec (Scheduler E)
  admit_one req s =
      let (over, s1) = response_is_done E req.response_done s.shared in
      let (closed, s2) = sender_is_closed E req.sender s1 in
      if over
      then finished (record s { shared = s1 })
      else if closed
      then finished (record s { shared = note E record_cancelled s2 })
      else elim (validate_request E s req) [
        | some e ↦ finished (record s { shared = send_error E req.sender (invalid_request e) s2 })
        | none ↦ start_sequence req (record s { shared = s2 })
      ]

  -- `while self.running.len() < max_running_seqs`, with a break when no slot or no request is left.
  unfoldable pub admit : ℕ → Scheduler E → Exec (Scheduler E)
  admit zero s = out_of_fuel
  admit (suc fuel) s =
      let stop =
        not (ltb (length s.running) s.config.max_running_seqs)
        || leb s.kv_cache.max_seqs (allocated_slots s.kv_cache) in
      elim stop [
        | true ↦ finished s
        | false ↦ elim (pop s).0 [
          | none ↦ finished (pop s).1
          | some req ↦ elim (admit_one req (pop s).1) [
            | finished s' ↦ admit fuel s'
            | panicked ↦ panicked
            | out_of_fuel ↦ out_of_fuel
          ]
        ]
      ]
