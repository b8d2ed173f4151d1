-- ===== src/Scheduler/Admitting.antt =====
-- Admission keeps the scheduler sound and never panics.
use hotbatch.Base.{
  ℕ, zero, suc, ◌<◌, ◌≡◌, refl, sym, subst, inl, inr, Bool, [], ◌∷◌, ◌++◌, arith, leb, ltb, not,
  ◌||◌, if◌then◌else◌, Bool-cases, Option-cases, length, All,
}
use hotbatch.KvCache.{allocated_slots, no_room}
use hotbatch.KvCache.Handles.{allocate_total}
use hotbatch.KvCache.Owners.{Owns, Owns-allocate}
use hotbatch.Sequence.{GenerationRequest, Sequence, start, mark_running, prompt_len, max_new_tokens}
use hotbatch.Sequence
use hotbatch.Message.{admission_failed, invalid_request}
use hotbatch.Metrics.{record_cancelled}
use hotbatch.Queue.{Shared}
use hotbatch.Scheduler.Defs.{
  Engine, Scheduler, Exec, finished, response_is_done, sender_is_closed, send_error, note,
}
use hotbatch.Scheduler.Admission.{
  pop, drop_if_gone, prefill_and_run, start_sequence, admit_one, admit,
}
use hotbatch.Scheduler.Live.{handles, IsLive, IsSound, Safe}
use hotbatch.Scheduler.Starting.{
  IsValid, validate_request_lem, start-IsLive, IsAdmitting, release-IsSound, drop-Dropped, retag,
  prefill_and_run-IsSound,
}

module _ (E : Engine) where
  open E use {tensors, runtime}

  -- A change of the shared state alone keeps the scheduler sound.
  pub reshared :
      (s s' : Scheduler E)
      → s'.running ≡ s.running
      → s'.config ≡ s.config
      → s'.kv_cache ≡ s.kv_cache
      → IsSound E s
      → IsSound E s'
  reshared s s' r f c v = record {
    owns =
        subst (λ k. Owns tensors k (handles s'.running)) (sym c)
          (subst (λ qs. Owns tensors s.kv_cache (handles qs)) (sym r) v.owns);
    bound = ground (arith, v.bound, r, f);
    live = subst (All (IsLive E)) (sym r) v.live;
  }

  abbrev pub Finishes : (Scheduler E → Type 0) → Exec (Scheduler E) → Type 0
  Finishes P e = (s : Scheduler E) × (e ≡ finished s) × P s

  started :
      (q : Sequence) (s : Scheduler E)
      → IsAdmitting E q s
      → IsLive E (mark_running q)
      → IsSound E (
          if (drop_if_gone E q s).0
          then (drop_if_gone E q s).1
          else prefill_and_run E q (drop_if_gone E q s).1)
  started q s v l =
      let d = drop-Dropped E q s in
      let s1 = (drop_if_gone E q s).1 in
      elim (Bool-cases (drop_if_gone E q s).0) [
        | inl gone ↦
            rw gone (release-IsSound E q s s1 v d.running d.config (ground (arith, d.cache, gone)))
        | inr here ↦
            let same : s1.kv_cache ≡ s.kv_cache = ground (arith, d.cache, here) in
            rw here (
              prefill_and_run-IsSound E q s1
                (retag E q q s s1 refl d.running d.config
                  (subst (λ c. Owns tensors c (handles s.running ++ (q.kv_handle ∷ []))) (sym same)
                    v.owns)
                  v)
                l)
      ]

  start_sequence-IsSound :
      (req : GenerationRequest) (s : Scheduler E)
      → IsSound E s
      → length s.running < s.config.max_running_seqs
      → IsValid E s req
      → Finishes (IsSound E) (start_sequence E req s)
  unfolding start_sequence Sequence.new
  start_sequence-IsSound req s v room valid =
      elim (allocate_total s.kv_cache (prompt_len req) (max_new_tokens req) v.owns.slab.partition) [
        | inl (fits, (h, c, e, fresh, current, sized, grown)) ↦
            let s1 = record s { kv_cache = c } in
            let q = start req h in
            rw (e, start_sequence, Sequence.new)
              (
                (if (drop_if_gone E q s1).0
                    then (drop_if_gone E q s1).1
                    else prefill_and_run E q (drop_if_gone E q s1).1),
                refl,
                started q s1
                    (record {
                      owns =
                          Owns-allocate tensors s.kv_cache (handles s.running) (prompt_len req)
                            (max_new_tokens req) h c v.owns e;
                      bound = room;
                      live = v.live;
                    })
                    (start-IsLive E s req h valid),
              )
        | inr (full, e) ↦
            rw (e, start_sequence, Sequence.new)
              (
                record s {
                  shared =
                      send_error E req.sender
                        (admission_failed req.id
                          (no_room (prompt_len req) (max_new_tokens req) s.kv_cache.max_seq_len))
                        s.shared;
                },
                refl,
                reshared s _ refl refl refl v,
              )
      ]

  same_limits :
      (s : Scheduler E) (w : Shared runtime) (req : GenerationRequest)
      → IsValid E s req
      → IsValid E (record s { shared = w }) req
  same_limits s w req v = record {
    prompted = v.prompted;
    asked = v.asked;
    representable = v.representable;
    limited = v.limited;
    seq_len = v.seq_len;
    kv_len = v.kv_len;
    model_len = v.model_len;
  }

  admit_one-IsSound :
      (req : GenerationRequest) (s : Scheduler E)
      → IsSound E s
      → length s.running < s.config.max_running_seqs
      → Finishes (IsSound E) (admit_one E req s)
  unfolding admit_one
  admit_one-IsSound req s v room =
      let over = response_is_done E req.response_done s.shared in
      let closed = sender_is_closed E req.sender over.1 in
      elim (Bool-cases over.0) [
        | inl done ↦
            rw (done, admit_one) (record s { shared = over.1 }, refl, reshared s _ refl refl refl v)
        | inr wanted ↦ elim (Bool-cases closed.0) [
          | inl gone ↦
              rw (wanted, gone, admit_one)
                (
                  record s { shared = note E record_cancelled closed.1 },
                  refl,
                  reshared s _ refl refl refl v,
                )
          | inr here ↦ elim (validate_request_lem E s req) [
            | inl (valid, is) ↦
                let started =
                  start_sequence-IsSound req (record s { shared = closed.1 })
                    (reshared s _ refl refl refl v) room (same_limits s closed.1 req is) in
                rw (wanted, here, valid, admit_one) started
            | inr (e, bad, is) ↦
                rw (wanted, here, bad, admit_one)
                  (
                    record s { shared = send_error E req.sender (invalid_request e) closed.1 },
                    refl,
                    reshared s _ refl refl refl v,
                  )
          ]
        ]
      ]

  popped : (s : Scheduler E) → IsSound E s → IsSound E (pop E s).1
  unfolding pop
  popped s v = reshared s (pop E s).1 refl refl refl v

  pop-room :
      (s : Scheduler E)
      → length s.running < s.config.max_running_seqs
      → length (pop E s).1.running < (pop E s).1.config.max_running_seqs
  unfolding pop
  pop-room s room = room

  -- The admission loop keeps the scheduler sound and never panics.
  pub admit-Safe : (fuel : ℕ) (s : Scheduler E) → IsSound E s → Safe (IsSound E) (admit E fuel s)
  unfolding admit
  admit-Safe zero s v = inr refl
  admit-Safe (suc fuel) s v = elim (Bool-cases stop) [
    | inl over ↦ rw (over, admit) (inl (s, refl, v))
    | inr on ↦ elim (Option-cases (pop E s).0) [
      | inl none_left ↦ rw (on, none_left, admit) (inl ((pop E s).1, refl, popped s v))
      | inr (req, next) ↦
          let (s', e, v') =
            admit_one-IsSound req (pop E s).1 (popped s v) (pop-room s (ground (arith, on))) in
          rw (on, next, e, admit) (admit-Safe fuel s' v')
    ]
  ]
    where
      stop : Bool
      stop =
          not (ltb (length s.running) s.config.max_running_seqs)
          || leb s.kv_cache.max_seqs (allocated_slots s.kv_cache)
