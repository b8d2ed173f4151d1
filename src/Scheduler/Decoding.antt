-- ===== src/Scheduler/Decoding.antt =====
-- A decode step always returns, keeps the scheduler sound, and its batch always fits the model.
use hotbatch.Base.{
  ℕ, suc, ◌≤◌, true, ◌⊎◌, ◌≡◌, refl, sym, subst, inl, inr, none, List, [], ◌∷◌, arith, length, All,
}
use hotbatch.KvCache.{SlabKvCache}
use hotbatch.KvCache.Owners.{Owns, Owns-same}
use hotbatch.Sequence.{Sequence, is_done}
use hotbatch.Message.{ModelError}
use hotbatch.Queue.{Shared}
use hotbatch.Model.{DecodeInput, dim, forward, first_over}
use hotbatch.Model.Frame.{forward-Writes, Writes-IsSlab, Writes-SameSlots}
use hotbatch.Scheduler.Defs.{Engine, Scheduler, each, reap_done_sequences}
use hotbatch.Scheduler.Decode.{input_of, build_decode_batch, end_step, fail_one, decode}
use hotbatch.Scheduler.Live.{handles, IsLive, IsLive-position, IsSound}
use hotbatch.Scheduler.Reaping.{
  DoneOrLive, fail-done, fail-handle, reap_done-IsSound, reap-All, each-handles, length-each,
  each-All,
}
use hotbatch.Scheduler.Advancing.{advance_all-AllAdvanced, NearEnd}
use hotbatch.Scheduler.Starting.{Pass-cases}
use hotbatch.Scheduler.Admitting.{Finishes, reshared}

module _ (E : Engine) where
  open E use {tensors, runtime, floats, backend}

  first_over-none :
      (qs : List Sequence)
      → All (IsLive E) qs
      → first_over backend.max_positions (build_decode_batch qs) ≡ none
  unfolding first_over build_decode_batch input_of
  first_over-none [] a = refl
  first_over-none (q ∷ qs) (v, a) = ground (arith, IsLive-position E q v, first_over-none qs a)

  -- The batch of a sound scheduler has no position past the model's capacity: `forward` goes on to
  -- the backend's own pass.
  pub forward-fits :
      (s : Scheduler E) (c : SlabKvCache tensors.Tensor)
      → IsSound E s
      → forward backend (build_decode_batch s.running) c
        ≡ backend.forward_pass (build_decode_batch s.running) c
  unfolding forward
  forward-fits s c v = rw (first_over-none s.running v.live, forward) refl

  end_step-IsSound :
      (n : ℕ) (s : Scheduler E)
      → Owns tensors s.kv_cache (handles s.running)
      → length s.running ≤ s.config.max_running_seqs
      → All (DoneOrLive E) s.running
      → IsSound E (end_step E n s)
  unfolding end_step
  end_step-IsSound n s o b a =
      reshared E (reap_done_sequences E s) (end_step E n s) refl refl refl
        (reap_done-IsSound E s o b a)

  fail_one-handle :
      (e : ModelError) (q : Sequence) (w : Shared runtime)
      → (fail_one E e q w).0.kv_handle ≡ q.kv_handle
  unfolding fail_one
  fail_one-handle e q w = fail-handle E q

  fail_one-DoneOrLive :
      (e : ModelError) (q : Sequence) (w : Shared runtime)
      → IsLive E q
      → DoneOrLive E (fail_one E e q w).0
  unfolding fail_one
  fail_one-DoneOrLive e q w v = inl (fail-done E q)

  -- Sound again, and every sequence that still runs is one token nearer to its limit.
  abbrev pub IsAdvanced : Scheduler E → Scheduler E → Type 0
  IsAdvanced s s' =
      IsSound E s' × ((n : ℕ) → All (NearEnd (suc n)) s.running → All (NearEnd n) s'.running)

  end_step-All :
      (n : ℕ) (s : Scheduler E) (P : Sequence → Type 0)
      → All (λ q. (is_done q ≡ true) ⊎ P q) s.running
      → All P (end_step E n s).running
  unfolding end_step reap_done_sequences
  end_step-All n s P a = reap-All E P s.running s.kv_cache a

  each-fail_one :
      (P : Sequence → Type 0) (e : ModelError) (qs : List Sequence) (w : Shared runtime)
      → All (λ q. (is_done q ≡ true) ⊎ P q) (each E (fail_one E e) qs w).0
  unfolding each fail_one
  each-fail_one P e [] w = tt
  each-fail_one P e (q ∷ qs) w = (inl (fail-done E q), each-fail_one P e qs (fail_one E e q w).1)

  pub decode-IsAdvanced : (s : Scheduler E) → IsSound E s → Finishes E (IsAdvanced s) (decode E s)
  unfolding decode
  decode-IsAdvanced s v = elim (Pass-cases (forward backend batch s.kv_cache).0) [
    | inl (logits, e) ↦
        let r = advance_all-AllAdvanced E logits 0 s.running s.shared v.live in
        let s' = record s { running = r.result; shared = r.shared; kv_cache = kv } in
        rw (e, r.returned, decode)
          (
            end_step E (dim batch 0) s',
            refl,
            (
              end_step-IsSound (dim batch 0) s' (subst (Owns tensors kv) (sym r.same) o)
                  (ground (arith, v.bound, r.count)) r.states,
              λ n a. end_step-All (dim batch 0) s' (NearEnd n) (r.nearer n a),
            ),
          )
    | inr (e, failure) ↦
        let (qs, shared) = each E (fail_one E e) s.running s.shared in
        let s' = record s { running = qs; shared = shared; kv_cache = kv } in
        rw (failure, decode)
          (
            end_step E (dim batch 0) s',
            refl,
            (
              end_step-IsSound (dim batch 0) s'
                  (subst (Owns tensors kv)
                    (sym (each-handles E (fail_one E e) s.running s.shared (fail_one-handle e))) o)
                  (ground (arith, v.bound, length-each E (fail_one E e) s.running s.shared))
                  (each-All E (IsLive E) (DoneOrLive E) (fail_one E e) s.running s.shared
                    (fail_one-DoneOrLive e) v.live),
              λ n a.
                  end_step-All (dim batch 0) s' (NearEnd n)
                    (each-fail_one (NearEnd n) e s.running s.shared),
            ),
          )
  ]
    where
      batch : List DecodeInput
      batch = build_decode_batch s.running

      kv : SlabKvCache tensors.Tensor
      kv = (forward backend batch s.kv_cache).1

      o : Owns tensors kv (handles s.running)
      o =
          let w = forward-Writes tensors backend batch s.kv_cache in
          Owns-same tensors s.kv_cache kv (handles s.running) (Writes-IsSlab tensors w v.owns.slab)
            (Writes-SameSlots tensors w).allocated v.owns

  -- A decode step of a sound scheduler returns: it neither panics nor loops, whether the model's pass
  -- succeeds or fails, and the scheduler is sound after it.
  pub decode-IsSound : (s : Scheduler E) → IsSound E s → Finishes E (IsSound E) (decode E s)
  decode-IsSound s v =
      let (s', returned, (sound, nearer)) = decode-IsAdvanced s v in (s', returned, sound)
