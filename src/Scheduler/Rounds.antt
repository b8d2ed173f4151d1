-- ===== src/Scheduler/Rounds.antt =====
-- A whole round of the scheduler's loop ends.
use hotbatch.Base.{ℕ, ◌≤◌, ◌<◌, ◌≡◌, refl, ap, inl, inr, List, [], ◌∷◌, arith, length}
use hotbatch.Sequence.{Sequence}
use hotbatch.Metrics.{set_running}
use hotbatch.Queue.{QueueState, Shared}
use hotbatch.Scheduler.Defs.{
  Engine, Scheduler, finished, note, each, mark_closed, reap_done_sequences,
  remove_closed_sequences, remove_sequences_past_model_capacity,
}
use hotbatch.Scheduler.Loop.{Control, round}
use hotbatch.Scheduler.Live.{IsSound}
use hotbatch.Scheduler.Reaping.{remove_closed-IsSound, remove_over-IsSound}
use hotbatch.Scheduler.Admitting.{reshared}
use hotbatch.Scheduler.Ending.{
  Finite, work, Quieter, then_, done-Quieter, both-Quieter, admit-Finishes,
}
use hotbatch.Scheduler.Decoding.{decode-IsSound}
use hotbatch.Scheduler.Running.{round-Safe}

module _ (E : Engine) (F : Finite E.runtime) where
  open E use {runtime}

  mark_closed-Quieter : (q : Sequence) (s : Shared runtime) → Quieter E F s (mark_closed E q s).1
  unfolding mark_closed note
  mark_closed-Quieter q s =
      let a = done-Quieter E F q.response_done s in
      let b = both-Quieter E F q.response_done q.sender s in
      record { queue = ground (arith, a.queue, b.queue); fewer = ground (arith, a.fewer, b.fewer) }

  each-Quieter :
      (qs : List Sequence) (s : Shared runtime) → Quieter E F s (each E (mark_closed E) qs s).1
  unfolding each
  each-Quieter [] s = record { queue = refl; fewer = omega arith }
  each-Quieter (q ∷ qs) s =
      let s1 = (mark_closed E q s).1 in
      then_ E F s s1 (each E (mark_closed E) qs s1).1 (mark_closed-Quieter q s) (each-Quieter qs s1)

  remove_closed-work :
      (s : Scheduler E)
      → work runtime F (remove_closed_sequences E s).shared ≤ work runtime F s.shared
  unfolding work remove_closed_sequences reap_done_sequences note
  remove_closed-work s =
      let q = each-Quieter s.running s.shared in
      ground (arith, ap length (ap (λ (x : QueueState). x.requests) q.queue), q.fewer)

  -- When the other tasks have only so many requests left to submit, and the fuel is more than those
  -- and the waiting ones, a round of a sound scheduler returns, and the scheduler is sound after it.
  pub round-finishes :
      (fuel : ℕ) (s : Scheduler E)
      → IsSound E s
      → work runtime F s.shared < fuel
      → (r : Control × Scheduler E) × (round E fuel s ≡ finished r) × IsSound E r.1
  unfolding round
  round-finishes fuel s v l =
      let s0 = remove_closed_sequences E s in
      let (s1, admitted, v1) =
        admit-Finishes E F fuel s0 (remove_closed-IsSound E s v)
          (omega (arith, remove_closed-work s)) in
      let s2 = record s1 { shared = note E (set_running (length s1.running)) s1.shared } in
      let v2 = remove_over-IsSound E s2 (reshared E s1 s2 refl refl refl v1) in
      let (s3, decoded, v3) = decode-IsSound E (remove_sequences_past_model_capacity E s2) v2 in
      elim (round-Safe E fuel s v) [
        | inl returned ↦ returned
        | inr starved ↦ absurd (ground (arith, admitted, decoded, starved))
      ]
