-- ===== src/Naive/Submit.antt =====
-- `NaiveEngine::submit`.
use hotbatch.Base.{ℕ, none, some, if◌then◌else◌, Result, ok, err}
use hotbatch.Runtime.{Runtime}
use hotbatch.Queue.{Shared}
use hotbatch.Naive.Defs.{try_acquire, release_permit}

pub data NaiveSubmitError : Type 0 where
  queue_full unavailable : NaiveSubmitError

module _ (R : Runtime) where
  -- The outcome, the number of accepted requests, and the state after it. On `Ok` the task that runs
  -- the request is spawned, and holds the permit.
  unfoldable pub submit : ℕ → ℕ → ℕ → Shared R → Result NaiveSubmitError (Unit {0}) × ℕ × Shared R
  unfolding try_acquire release_permit
  submit token max_queue_depth accepted s =
      let (shut, w) = R.is_cancelled token s.world in
      let s1 = record s { world = w } in
      if shut
      then (err unavailable, accepted, s1)
      else elim (try_acquire max_queue_depth accepted s1.metrics) [
        | none ↦ (err queue_full, accepted, s1)
        | some (n, m) ↦
            let (shut', w') = R.is_cancelled token w in
            if shut'
            then (
              err unavailable,
              (release_permit n m).0,
              record s1 { world = w'; metrics = (release_permit n m).1 },
            )
            else (ok tt, n, record s1 { world = w'; metrics = m })
      ]
