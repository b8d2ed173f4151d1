-- ===== src/Queue/Defs.antt =====
-- The queue's state and its operations.
use hotbatch.Base.{
  ℕ, zero, suc, ◌+◌, ◌-◌, Bool, true, false, ◌||◌, Option, none, some, List, [], ◌∷◌, ◌++◌, ltb,
  leb, ◌==◌, if◌then◌else◌, length,
}
use hotbatch.Sequence.{GenerationRequest}
use hotbatch.Metrics.{Metrics, record_cancelled, set_queue_depth}
use hotbatch.Runtime.{Runtime}

pub record QueueState : Type 0 where
  pub requests : List GenerationRequest
  pub max_depth : ℕ
  pub closed : Bool

unfoldable pub new : ℕ → QueueState
new max_depth = record { requests = []; max_depth = max_depth; closed = false }

-- `VecDeque::remove`: the element at an index, and the rest in order.
unfoldable pub remove_at :
    List GenerationRequest → ℕ → Option (GenerationRequest × List GenerationRequest)
remove_at [] i = none
remove_at (r ∷ rs) zero = some (r, rs)
remove_at (r ∷ rs) (suc i) = elim (remove_at rs i) [
  | none ↦ none
  | some (x, rest) ↦ some (x, r ∷ rest)
]

-- The search of `try_pop` over the requests from `index` on, with the best so far.
unfoldable pub best_from : List GenerationRequest → ℕ → ℕ → ℕ → ℕ
best_from [] index best_index best_priority = best_index
best_from (req ∷ reqs) index best_index best_priority =
    best_from reqs (index + 1) (if ltb best_priority req.priority then index else best_index)
      (if ltb best_priority req.priority then req.priority else best_priority)

-- It starts from the front.
unfoldable pub best : List GenerationRequest → ℕ
unfolding best_from
best [] = 0
best (front ∷ reqs) = best_from reqs 1 0 front.priority

unfoldable pub take_best :
    List GenerationRequest → Option (GenerationRequest × List GenerationRequest)
unfolding best remove_at
take_best reqs = remove_at reqs (best reqs)

-- `for _ in after..before { record_cancelled() }`
unfoldable pub cancel_each : ℕ → Metrics → Metrics
cancel_each zero m = m
cancel_each (suc n) m = cancel_each n (record_cancelled m)

module _ (R : Runtime) where
  open R use {World, is_closed, arrivals}

  -- What the queue's operations read and write.
  pub record Shared : Type 0 where
    pub queue : QueueState
    pub metrics : Metrics
    pub world : World

  -- `requests.retain(|pending| !pending.sender.is_closed())`
  unfoldable pub prune : List GenerationRequest → World → List GenerationRequest × World
  prune [] w = ([], w)
  prune (req ∷ reqs) w =
      let (closed, w1) = is_closed req.sender w in
      let (kept, w2) = prune reqs w1 in ((if closed then kept else req ∷ kept), w2)

  -- The prefix that `submit` and `try_pop` share.
  unfoldable pub pruned : Shared → Shared
  unfolding prune cancel_each
  pruned s =
      let (kept, w) = prune s.queue.requests s.world in
      record {
        queue = record s.queue { requests = kept };
        metrics =
            set_queue_depth (length kept)
              (cancel_each (length s.queue.requests - length kept) s.metrics);
        world = w;
      }

  -- `true` for `Ok(())`, `false` for `Err(QueueFull)`. Waking a waiter has no effect on the state.
  unfoldable pub submit : GenerationRequest → Shared → Bool × Shared
  submit req s =
      let p = pruned s in
      if p.queue.closed || leb p.queue.max_depth (length p.queue.requests) then (false, p) else (
        true,
        record {
          queue = record p.queue { requests = p.queue.requests ++ (req ∷ []) };
          metrics = set_queue_depth (length p.queue.requests + 1) p.metrics;
          world = p.world;
        },
      )

  -- Requests of other tasks, each submitted in turn.
  unfoldable pub submit_all : List GenerationRequest → Shared → Shared
  unfolding submit
  submit_all [] s = s
  submit_all (req ∷ reqs) s = submit_all reqs (submit req s).1

  unfoldable pub try_pop : Shared → Option GenerationRequest × Shared
  try_pop s =
      let p = pruned s in
      elim (take_best p.queue.requests) [
        | none ↦ (none, record p { metrics = set_queue_depth 0 p.metrics })
        | some (req, rest) ↦ (
          some req,
          record p {
            queue = record p.queue { requests = rest };
            metrics = set_queue_depth (length rest) p.metrics;
          },
        )
      ]

  unfoldable pub len : Shared → ℕ
  len s = length s.queue.requests

  unfoldable pub is_empty : Shared → Bool
  unfolding len
  is_empty s = len s == 0

  unfoldable pub close_and_drain : Shared → List GenerationRequest × Shared
  close_and_drain s = (
    s.queue.requests,
    record s {
      queue = record s.queue { requests = []; closed = true };
      metrics = set_queue_depth 0 s.metrics;
    },
  )
