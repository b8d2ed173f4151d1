-- ===== src/Scheduler/Progress.antt =====
-- Decode steps drain the scheduler.
use hotbatch.Base.{ℕ, zero, suc, ◌≡◌, refl, ◌⊎◌, inl, inr, List, [], ◌∷◌, arith, length, All}
use hotbatch.Sequence.{Sequence}
use hotbatch.Scheduler.Defs.{Engine, Scheduler, Exec, finished, panicked, out_of_fuel}
use hotbatch.Scheduler.Decode.{decode}
use hotbatch.Scheduler.Live.{IsLive, IsSound}
use hotbatch.Scheduler.Admitting.{Finishes}
use hotbatch.Scheduler.Advancing.{NearEnd}
use hotbatch.Scheduler.Decoding.{decode-IsAdvanced}

module _ (E : Engine) where
  -- The decode steps of so many rounds in which no request comes in: `run` takes one only while
  -- sequences are running.
  unfoldable pub decode_times : ℕ → Scheduler E → Exec (Scheduler E)
  decode_times zero s = finished s
  decode_times (suc n) s = elim s.running [
    | [] ↦ finished s
    | q ∷ qs ↦ elim (decode E s) [
      | finished s' ↦ decode_times n s'
      | panicked ↦ panicked
      | out_of_fuel ↦ out_of_fuel
    ]
  ]

  none_left : (qs : List Sequence) → All (IsLive E) qs → All (NearEnd 0) qs → qs ≡ []
  none_left [] a b = refl
  none_left (q ∷ qs) a b = absurd (omega (arith, a.0.within.open_below a.0.open_end, b.0))

  -- Nothing runs, and every slot of the cache is free.
  abbrev pub IsDrained : Scheduler E → Type 0
  IsDrained s = IsSound E s × (s.running ≡ []) × (length s.kv_cache.allocated ≡ 0)

  empty-IsDrained : (s : Scheduler E) → IsSound E s → s.running ≡ [] → IsDrained s
  empty-IsDrained s v e = (v, e, ground (arith, v.owns.many, e))

  running_cases :
      (qs : List Sequence) → (qs ≡ []) ⊎ ((q : Sequence) × (rest : List Sequence) × (qs ≡ q ∷ rest))
  running_cases [] = inl refl
  running_cases (q ∷ qs) = inr (q, qs, refl)

  -- If each running sequence of a sound scheduler has at most `n` tokens left before its limit, then
  -- `n` decode steps, whether the model's passes succeed or fail and whatever the consumers do, all
  -- return and leave a scheduler that is sound and runs nothing, with all its slots free.
  pub decode_times-IsDrained :
      (n : ℕ) (s : Scheduler E)
      → IsSound E s
      → All (NearEnd n) s.running
      → Finishes E IsDrained (decode_times n s)
  unfolding decode_times
  decode_times-IsDrained zero s v a = (s, refl, empty-IsDrained s v (none_left s.running v.live a))
  decode_times-IsDrained (suc n) s v a = elim (running_cases s.running) [
    | inl idle ↦ rw (idle, decode_times) (s, refl, empty-IsDrained s v idle)
    | inr (q, qs, busy) ↦
        let (s', returned, advanced) = decode-IsAdvanced E s v in
        rw (busy, returned, decode_times) (decode_times-IsDrained n s' advanced.0 (advanced.1 n a))
  ]
