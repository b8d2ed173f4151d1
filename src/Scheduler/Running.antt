-- ===== src/Scheduler/Running.antt =====
-- The scheduler's loop from start to shutdown: it never panics, keeps the scheduler sound, and ends
-- with every slot given back and the queue closed for good.
use hotbatch.Base.{
  ℕ, zero, suc, ◌≡◌, refl, ap, ◌∙◌, inl, inr, true, List, [], ◌∷◌, arith, is_empty, Bool-cases,
  length,
}
use hotbatch.KvCache.{SlabKvCache, allocated_slots}
use hotbatch.KvCache
use hotbatch.KvCache.Invariant.{new-IsSlab}
use hotbatch.KvCache.Owners.{Owns, Owns-free}
use hotbatch.Sequence.{GenerationRequest, Sequence}
use hotbatch.Message.{shutting_down}
use hotbatch.Metrics.{set_running}
use hotbatch.Queue.{QueueState, Shared, close_and_drain}
use hotbatch.Scheduler.Defs.{
  Engine, Config, Scheduler, new, note, send_error, response_is_done, remove_closed_sequences,
  remove_sequences_past_model_capacity,
}
use hotbatch.Scheduler.Admission.{arrive}
use hotbatch.Scheduler.Loop.{
  Control, again, stop, wait, round, refuse_all, release_all, shut_down, run,
}
use hotbatch.Scheduler.Live.{handles, IsSound, Safe}
use hotbatch.Scheduler.Reaping.{remove_closed-IsSound, remove_over-IsSound}
use hotbatch.Scheduler.Admitting.{reshared, admit-Safe}
use hotbatch.Scheduler.Decoding.{decode-IsSound}

module _ (E : Engine) where
  open E use {tensors, runtime}

  -- After the shutdown: nothing runs, every slot is free, and the queue is closed and empty.
  pub record IsShutDown (s : Scheduler E) : Type 0 where
    pub idle : s.running ≡ []
    pub owns : Owns tensors s.kv_cache []
    pub released : allocated_slots s.kv_cache ≡ 0
    pub all_free : length s.kv_cache.free_slots ≡ s.kv_cache.max_seqs
    pub closed : s.shared.queue.closed ≡ true
    pub drained : s.shared.queue.requests ≡ []

  -- A new scheduler over a new cache is sound.
  pub new-IsSound :
      (config : Config) (shared : Shared runtime) (seqs len layers heads dim : ℕ)
      → IsSound E (new E config shared (KvCache.new seqs len layers heads dim))
  unfolding new KvCache.new
  new-IsSound config shared seqs len layers heads dim = record {
    owns = record {
      slab = new-IsSlab tensors seqs len layers heads dim;
      current = tt;
      exact = λ i. refl;
      many = refl;
    };
    bound = omega arith;
    live = tt;
  }

  refuse_all-queue :
      (reqs : List GenerationRequest) (s : Shared runtime) → (refuse_all E reqs s).queue ≡ s.queue
  unfolding refuse_all send_error
  refuse_all-queue [] s = refl
  refuse_all-queue (req ∷ reqs) s = refuse_all-queue reqs (send_error E req.sender shutting_down s)

  release_all-queue :
      (qs : List Sequence) (s : Shared runtime) (c : SlabKvCache tensors.Tensor)
      → (release_all E qs s c).0.queue ≡ s.queue
  unfolding release_all send_error
  release_all-queue [] s c = refl
  release_all-queue (q ∷ qs) s c =
      release_all-queue qs (send_error E q.sender shutting_down s) (KvCache.free c q.kv_handle)

  release_all-Owns :
      (qs : List Sequence) (s : Shared runtime) (c : SlabKvCache tensors.Tensor)
      → Owns tensors c (handles qs)
      → Owns tensors (release_all E qs s c).1 []
  unfolding release_all
  release_all-Owns [] s c o = o
  release_all-Owns (q ∷ qs) s c o =
      release_all-Owns qs (send_error E q.sender shutting_down s) (KvCache.free c q.kv_handle)
        (Owns-free tensors c [] q.kv_handle (handles qs) o)

  -- The shutdown of a sound scheduler leaves nothing running, gives every slot back, and closes and
  -- empties the queue.
  pub shut_down-IsShutDown : (s : Scheduler E) → IsSound E s → IsShutDown (shut_down E s)
  unfolding shut_down note allocated_slots close_and_drain
  shut_down-IsShutDown s v =
      let (waiting, shared) = close_and_drain runtime (arrive E s.shared) in
      let o = release_all-Owns s.running (refuse_all E waiting shared) s.kv_cache v.owns in
      let q =
        release_all-queue s.running (refuse_all E waiting shared) s.kv_cache
        ∙ refuse_all-queue waiting shared in
      record {
        idle = refl;
        owns = o;
        released = ground (arith, o.many);
        all_free = ground (arith, o.many, o.slab.partition.total);
        closed = ap (λ (x : QueueState). x.closed) q;
        drained = ap (λ (x : QueueState). x.requests) q;
      }

  -- One round of the loop keeps a sound scheduler sound and does not panic.
  pub round-Safe :
      (fuel : ℕ) (s : Scheduler E)
      → IsSound E s
      → Safe (λ (r : Control × Scheduler E). IsSound E r.1) (round E fuel s)
  unfolding round wait
  round-Safe fuel s v =
      elim (admit-Safe E fuel (remove_closed_sequences E s) (remove_closed-IsSound E s v)) [
        | inr starved ↦ rw (starved, round) (inr refl)
        | inl (s1, admitted, v1) ↦
            let s2 =
              remove_sequences_past_model_capacity E
                (record s1 { shared = note E (set_running (length s1.running)) s1.shared }) in
            let v2 =
              remove_over-IsSound E
                (record s1 { shared = note E (set_running (length s1.running)) s1.shared })
                (reshared E s1 _ refl refl refl v1) in
            elim (Bool-cases (is_empty s2.running)) [
              | inl idle ↦
                  rw (admitted, idle, round)
                    (inl (wait E s2, refl, reshared E s2 (wait E s2).1 refl refl refl v2))
              | inr busy ↦
                  let (s3, e, v3) = decode-IsSound E s2 v2 in
                  rw (admitted, busy, e, round) (inl ((again, s3), refl, v3))
            ]
      ]

  -- `run` on a sound scheduler never panics: whatever the clients, the channels, the model and the other
  -- tasks do, when it returns nothing is running, every slot is free, and the queue is closed and
  -- empty. The other outcome is that the bounds on rounds or on one admission loop were too low.
  pub run-Safe :
      (rounds fuel token : ℕ) (s : Scheduler E)
      → IsSound E s
      → Safe IsShutDown (run E rounds fuel token s)
  unfolding run
  run-Safe zero fuel token s v = inr refl
  run-Safe (suc rounds) fuel token s v =
      let (cancelled, shared) = response_is_done E token s.shared in
      let s1 = record s { shared = shared } in
      let v1 = reshared E s s1 refl refl refl v in
      elim (Bool-cases cancelled) [
        | inl over ↦ rw (over, run) (inl (shut_down E s1, refl, shut_down-IsShutDown s1 v1))
        | inr on ↦ elim (round-Safe fuel s1 v1) [
          | inr starved ↦ rw (on, starved, run) (inr refl)
          | inl ((again, s2), e, v2) ↦ rw (on, e, run) (run-Safe rounds fuel token s2 v2)
          | inl ((stop, s2), e, v2) ↦
              rw (on, e, run) (inl (shut_down E s2, refl, shut_down-IsShutDown s2 v2))
        ]
      ]
