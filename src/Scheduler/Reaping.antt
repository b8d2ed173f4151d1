-- ===== src/Scheduler/Reaping.antt =====
-- Reaping gives back exactly the slots of the sequences that are done.
use hotbatch.Base.{
  suc, ◌≤◌, ◌≡◌, refl, sym, ap, ap₂, subst, ◌⊎◌, inl, inr, true, List, [], ◌∷◌, ◌++◌, append_assoc,
  arith, if◌then◌else◌, Bool-cases, length, All,
}
use hotbatch.KvCache.{KvHandle, SlabKvCache, free}
use hotbatch.KvCache.Owners.{Owns, Owns-free}
use hotbatch.Sequence.{Sequence, is_done, cancel, fail}
use hotbatch.Queue.{Shared}
use hotbatch.Metrics.{set_running}
use hotbatch.Scheduler.Defs.{
  Engine, Scheduler, note, response_is_done, sender_is_closed, each, reap, reap_done_sequences,
  mark_closed, mark_over, remove_closed_sequences, remove_sequences_past_model_capacity,
}
use hotbatch.Scheduler.Live.{handles, IsLive, IsLive-position, IsSound}

module _ (E : Engine) where
  open E use {tensors, runtime}

  -- What a sequence may be while a round is under way.
  abbrev pub DoneOrLive : Sequence → Type 0
  DoneOrLive q = (is_done q ≡ true) ⊎ IsLive E q

  abbrev pub Cache : Type 0
  Cache = SlabKvCache tensors.Tensor

  -- Reaping keeps the owners exact, beside any others.
  pub reap-Owns :
      (qs : List Sequence) (xs : List KvHandle) (c : Cache)
      → Owns tensors c (xs ++ handles qs)
      → Owns tensors (reap E qs c).1 (xs ++ handles (reap E qs c).0)
  unfolding reap
  reap-Owns [] xs c o = o
  reap-Owns (q ∷ qs) xs c o = elim (Bool-cases (is_done q)) [
    | inl over ↦
        rw over
          (reap-Owns qs xs (free c q.kv_handle) (Owns-free tensors c xs q.kv_handle (handles qs) o))
    | inr going ↦ rw going (
        subst (λ hs. Owns tensors (reap E qs c).1 hs)
          (append_assoc xs (q.kv_handle ∷ []) (handles (reap E qs c).0))
          (reap-Owns qs (xs ++ (q.kv_handle ∷ [])) c (
            subst (λ hs. Owns tensors c hs) (sym (append_assoc xs (q.kv_handle ∷ []) (handles qs)))
              o)))
  ]

  -- What it leaves goes on.
  pub reap-IsLive :
      (qs : List Sequence) (c : Cache) → All DoneOrLive qs → All (IsLive E) (reap E qs c).0
  unfolding reap
  reap-IsLive [] c a = tt
  reap-IsLive (q ∷ qs) c (inl over, a) = rw over (reap-IsLive qs (free c q.kv_handle) a)
  reap-IsLive (q ∷ qs) c (inr v, a) = rw v.going (v, reap-IsLive qs c a)

  pub length-reap-le : (qs : List Sequence) (c : Cache) → length (reap E qs c).0 ≤ length qs
  unfolding reap
  length-reap-le [] c = omega arith
  length-reap-le (q ∷ qs) c =
      ground (arith, length-reap-le qs (if is_done q then free c q.kv_handle else c))

  -- What holds of every sequence that is not done holds of those that stay.
  pub reap-All :
      (P : Sequence → Type 0) (qs : List Sequence) (c : Cache)
      → All (λ q. (is_done q ≡ true) ⊎ P q) qs
      → All P (reap E qs c).0
  unfolding reap
  reap-All P [] c a = tt
  reap-All P (q ∷ qs) c (h, a) = elim (Bool-cases (is_done q)) [
    | inl done ↦ rw (done, reap) (reap-All P qs (free c q.kv_handle) a)
    | inr going ↦ elim h [
      | inl done ↦ absurd (ground (arith, done, going))
      | inr p ↦ rw (going, reap) (p, reap-All P qs c a)
    ]
  ]

  -- `reap_done_sequences` makes the scheduler sound again, if each sequence is done or goes on.
  pub reap_done-IsSound :
      (s : Scheduler E)
      → Owns tensors s.kv_cache (handles s.running)
      → length s.running ≤ s.config.max_running_seqs
      → All DoneOrLive s.running
      → IsSound E (reap_done_sequences E s)
  unfolding reap_done_sequences
  reap_done-IsSound s o b a = record {
    owns = reap-Owns s.running [] s.kv_cache o;
    bound = omega (arith, length-reap-le s.running s.kv_cache);
    live = reap-IsLive s.running s.kv_cache a;
  }

  -- A loop body that keeps each sequence's handle keeps the owners, and one that keeps the sequences
  -- done or going keeps that.
  pub each-handles :
      (body : Sequence → Shared runtime → Sequence × Shared runtime) (qs : List Sequence)
      (w : Shared runtime)
      → ((q : Sequence) (s : Shared runtime) → (body q s).0.kv_handle ≡ q.kv_handle)
      → handles (each E body qs w).0 ≡ handles qs
  unfolding each
  each-handles body [] w k = refl
  each-handles body (q ∷ qs) w k = ap₂ ◌∷◌ (k q w) (each-handles body qs (body q w).1 k)

  pub length-each :
      (body : Sequence → Shared runtime → Sequence × Shared runtime) (qs : List Sequence)
      (w : Shared runtime)
      → length (each E body qs w).0 ≡ length qs
  unfolding each
  length-each body [] w = refl
  length-each body (q ∷ qs) w = ap suc (length-each body qs (body q w).1)

  pub each-All :
      (P Q : Sequence → Type 0) (body : Sequence → Shared runtime → Sequence × Shared runtime)
      (qs : List Sequence) (w : Shared runtime)
      → ((q : Sequence) (s : Shared runtime) → P q → Q (body q s).0)
      → All P qs
      → All Q (each E body qs w).0
  unfolding each
  each-All P Q body [] w k a = tt
  each-All P Q body (q ∷ qs) w k a = (k q w a.0, each-All P Q body qs (body q w).1 k a.1)

  pub cancel-done : (q : Sequence) → is_done (cancel q) ≡ true
  unfolding cancel
  cancel-done q = ground arith

  pub fail-done : (q : Sequence) → is_done (fail q) ≡ true
  unfolding fail
  fail-done q = ground arith

  pub cancel-handle : (q : Sequence) → (cancel q).kv_handle ≡ q.kv_handle
  unfolding cancel
  cancel-handle q = ground arith

  pub fail-handle : (q : Sequence) → (fail q).kv_handle ≡ q.kv_handle
  unfolding fail
  fail-handle q = ground arith

  mark_closed-DoneOrLive :
      (q : Sequence) (w : Shared runtime) → IsLive E q → DoneOrLive (mark_closed E q w).0
  unfolding mark_closed
  mark_closed-DoneOrLive q w v = elim (Bool-cases (response_is_done E q.response_done w).0) [
    | inl over ↦ rw over (inl (cancel-done q))
    | inr on ↦
        elim (Bool-cases (sender_is_closed E q.sender (response_is_done E q.response_done w).1).0) [
          | inl closed ↦ rw (on, closed) (inl (cancel-done q))
          | inr open_end ↦ rw (on, open_end) (inr v)
        ]
  ]

  mark_closed-handle :
      (q : Sequence) (w : Shared runtime) → (mark_closed E q w).0.kv_handle ≡ q.kv_handle
  unfolding mark_closed
  mark_closed-handle q w = ground (arith, cancel-handle q)

  -- Removing the sequences whose consumer has finished or gone keeps the scheduler sound.
  pub remove_closed-IsSound :
      (s : Scheduler E) → IsSound E s → IsSound E (remove_closed_sequences E s)
  unfolding remove_closed_sequences
  remove_closed-IsSound s v =
      let marked = (each E (mark_closed E) s.running s.shared).0 in
      reap_done-IsSound
        (record s { running = marked; shared = (each E (mark_closed E) s.running s.shared).1 })
        (subst (Owns tensors s.kv_cache)
          (sym (each-handles (mark_closed E) s.running s.shared mark_closed-handle)) v.owns)
        (ground (arith, v.bound, length-each (mark_closed E) s.running s.shared))
        (each-All (IsLive E) DoneOrLive (mark_closed E) s.running s.shared mark_closed-DoneOrLive
          v.live)

  mark_over-id : (q : Sequence) (w : Shared runtime) → IsLive E q → mark_over E q w ≡ (q, w)
  unfolding mark_over
  mark_over-id q w v = ground (arith, IsLive-position E q v)

  each-mark_over :
      (qs : List Sequence) (w : Shared runtime)
      → All (IsLive E) qs
      → each E (mark_over E) qs w ≡ (qs, w)
  unfolding each
  each-mark_over [] w a = refl
  each-mark_over (q ∷ qs) w a = rw (mark_over-id q w a.0, each-mark_over qs w a.1) refl

  reap-none : (qs : List Sequence) (c : Cache) → All (IsLive E) qs → reap E qs c ≡ (qs, c)
  unfolding reap
  reap-none [] c a = refl
  reap-none (q ∷ qs) c a = rw (a.0.going, reap-none qs c a.1) refl

  -- With a sound scheduler no sequence is past the model's capacity: the removal of such sequences
  -- sends nothing and fails none, and only sets the gauge of running sequences again.
  pub remove_sequences_past_model_capacity-id :
      (s : Scheduler E)
      → IsSound E s
      → remove_sequences_past_model_capacity E s
        ≡ record s { shared = note E (set_running (length s.running)) s.shared }
  unfolding remove_sequences_past_model_capacity reap_done_sequences
  remove_sequences_past_model_capacity-id s v =
      rw (each-mark_over s.running s.shared v.live, reap-none s.running s.kv_cache v.live) refl

  -- And so it keeps the scheduler sound.
  pub remove_over-IsSound :
      (s : Scheduler E) → IsSound E s → IsSound E (remove_sequences_past_model_capacity E s)
  remove_over-IsSound s v =
      subst (IsSound E) (sym (remove_sequences_past_model_capacity-id s v))
        (record { owns = v.owns; bound = v.bound; live = v.live })
