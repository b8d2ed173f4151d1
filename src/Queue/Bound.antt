-- ===== src/Queue/Bound.antt =====
-- The queue's bound and its closing.
use hotbatch.Base.{
  ◌≤◌, ◌<◌, ◌≡◌, refl, ap, ◌∙◌, ◌⊎◌, inl, inr, true, false, ◌||◌, none, some, List, [], ◌∷◌, ◌++◌,
  arith, leb, Bool-cases, length, length-append, All,
}
use hotbatch.Sequence.{GenerationRequest}
use hotbatch.Runtime.{Runtime}
use hotbatch.Queue.Defs.{
  QueueState, Shared, prune, pruned, submit, submit_all, take_best, try_pop, close_and_drain,
}
use hotbatch.Queue.Order.{take_best-Chosen, take_best-nil}

-- At most `max_depth` requests wait, and none once the queue is closed.
pub record IsBounded (q : QueueState) : Type 0 where
  pub depth : length q.requests ≤ q.max_depth
  pub drained : q.closed ≡ true → q.requests ≡ []

module _ (R : Runtime) where
  open R use {World, is_closed}

  length-prune :
      (reqs : List GenerationRequest) (w : World) → length (prune R reqs w).0 ≤ length reqs
  unfolding prune
  length-prune [] w = omega arith
  length-prune (req ∷ reqs) w = ground (arith, length-prune reqs (is_closed req.sender w).1)

  max_depth-pruned : (s : Shared R) → (pruned R s).queue.max_depth ≡ s.queue.max_depth
  unfolding pruned
  max_depth-pruned s = refl

  pruned-IsBounded : (s : Shared R) → IsBounded s.queue → IsBounded (pruned R s).queue
  unfolding pruned
  pruned-IsBounded s b = record {
    depth = omega (arith, b.depth, length-prune s.queue.requests s.world);
    drained = λ c. ground (arith, b.drained c, length-prune s.queue.requests s.world);
  }

  -- The first list is gone through in order: of each request it is asked whether the receiver is gone,
  -- and the second list has those, in their order, of which the answer was no. The two worlds are the
  -- one before the first question and the one after the last.
  pub data Retained : List GenerationRequest → World → List GenerationRequest → World → Type 0 where
    over : {w : World} → Retained [] w [] w
    gone :
        {req : GenerationRequest} {reqs kept : List GenerationRequest} {w w' : World}
        → (is_closed req.sender w).0 ≡ true
        → Retained reqs (is_closed req.sender w).1 kept w'
        → Retained (req ∷ reqs) w kept w'
    stays :
        {req : GenerationRequest} {reqs kept : List GenerationRequest} {w w' : World}
        → (is_closed req.sender w).0 ≡ false
        → Retained reqs (is_closed req.sender w).1 kept w'
        → Retained (req ∷ reqs) w (req ∷ kept) w'

  prune-Retained :
      (reqs : List GenerationRequest) (w : World)
      → Retained reqs w (prune R reqs w).0 (prune R reqs w).1
  unfolding prune
  prune-Retained [] w = over
  prune-Retained (req ∷ reqs) w = elim (Bool-cases (is_closed req.sender w).0) [
    | inl closed ↦ rw closed (gone closed (prune-Retained reqs (is_closed req.sender w).1))
    | inr alive ↦ rw alive (stays alive (prune-Retained reqs (is_closed req.sender w).1))
  ]

  -- `submit` keeps the bound. It asks of each waiting request in turn whether its receiver is gone, and
  -- `alive` are those, in their order, whose receivers are not. It accepts the new request exactly when
  -- the queue is open and fewer than `max_depth` requests are alive, and then the queue is those with
  -- the new one behind; otherwise the queue is those. It closes or opens nothing, changes no limit, and
  -- does nothing else to the world.
  pub submit_lem :
      (req : GenerationRequest) (s : Shared R)
      → IsBounded s.queue
      → IsBounded (submit R req s).1.queue
        × ((submit R req s).1.queue.closed ≡ s.queue.closed)
        × ((submit R req s).1.queue.max_depth ≡ s.queue.max_depth)
        × ((alive : List GenerationRequest) × Retained s.queue.requests s.world alive
              (submit R req s).1.world
            × (((submit R req s).0 ≡ true)
                  × (s.queue.closed ≡ false)
                  × (length alive < s.queue.max_depth)
                  × ((submit R req s).1.queue.requests ≡ alive ++ (req ∷ []))
                ⊎ ((submit R req s).0 ≡ false)
                  × ((s.queue.closed ≡ true) ⊎ (s.queue.max_depth ≤ length alive))
                  × ((submit R req s).1.queue.requests ≡ alive)))
  unfolding submit pruned
  submit_lem req s b =
      let p = pruned-IsBounded s b in
      let r = prune-Retained s.queue.requests s.world in
      let alive = (prune R s.queue.requests s.world).0 in
      elim (Bool-cases (s.queue.closed || leb s.queue.max_depth (length alive))) [
        | inl refused ↦
            rw refused (p, refl, refl, (alive, r, inr (refl, ground (arith, refused), refl)))
        | inr accepted ↦ rw accepted (
          record {
            depth = ground (arith, accepted, length-append alive (req ∷ []));
            drained = λ c. absurd (ground (arith, accepted));
          },
          refl,
          refl,
          (alive, r, inl (refl, ground (arith, accepted), ground (arith, accepted), refl)),
        )
      ]

  -- `try_pop` keeps the bound. It answers `None` exactly when no request is left after the clean-up,
  -- and otherwise takes the first of the requests with the highest priority and leaves the others in
  -- their order.
  pub try_pop_lem :
      (s : Shared R)
      → IsBounded s.queue
      → IsBounded (try_pop R s).1.queue
        × (((pruned R s).queue.requests ≡ [])
              × ((try_pop R s).0 ≡ none)
              × ((try_pop R s).1.queue ≡ (pruned R s).queue)
            ⊎ ((before : List GenerationRequest) × (req : GenerationRequest) × (behind : List
                  GenerationRequest)
                × ((pruned R s).queue.requests ≡ before ++ (req ∷ behind))
                × ((try_pop R s).0 ≡ some req)
                × ((try_pop R s).1.queue.requests ≡ before ++ behind)
                × All (λ r. r.priority < req.priority) before
                × All (λ r. r.priority ≤ req.priority) behind))
  unfolding try_pop
  try_pop_lem s b =
      let p = pruned-IsBounded s b in
      elim (take_best-Chosen (pruned R s).queue.requests) [
        | inl empty ↦
            let e : take_best (pruned R s).queue.requests ≡ none =
              ap take_best empty ∙ take_best-nil in
            rw (e, try_pop)
              (record { depth = p.depth; drained = p.drained }, inl (empty, refl, refl))
        | inr (before, req, behind, split, taken, lo, hi) ↦
            rw (taken, try_pop)
              (
                record {
                  depth = ground (
                    arith,
                    p.depth,
                    split,
                    length-append before (req ∷ behind),
                    length-append before behind,
                  );
                  drained = λ c. absurd (
                      ground (
                        arith,
                        ap length split,
                        ap length (p.drained c),
                        length-append before (req ∷ behind),
                      ));
                },
                inr (before, req, behind, split, refl, refl, lo, hi),
              )
      ]

  closed-prune : (w : World) → (prune R [] w).0 ≡ []
  unfolding prune
  closed-prune w = refl

  pruned-closed :
      (s : Shared R)
      → s.queue.closed ≡ true
      → s.queue.requests ≡ []
      → ((pruned R s).queue.closed ≡ true) × ((pruned R s).queue.requests ≡ [])
  unfolding pruned
  pruned-closed s c e = (c, rw e (closed-prune s.world))

  submit-closed :
      (req : GenerationRequest) (s : Shared R)
      → s.queue.closed ≡ true
      → s.queue.requests ≡ []
      → ((submit R req s).0 ≡ false)
        × ((submit R req s).1.queue.closed ≡ true)
        × ((submit R req s).1.queue.requests ≡ [])
  unfolding submit
  submit-closed req s c e =
      let p = pruned-closed s c e in (ground arith, ground arith, ground arith)

  submit_all-closed :
      (reqs : List GenerationRequest) (s : Shared R)
      → s.queue.closed ≡ true
      → s.queue.requests ≡ []
      → ((submit_all R reqs s).queue.closed ≡ true) × ((submit_all R reqs s).queue.requests ≡ [])
  unfolding submit_all
  submit_all-closed [] s c e = (c, e)
  submit_all-closed (req ∷ reqs) s c e =
      let r = submit-closed req s c e in submit_all-closed reqs (submit R req s).1 r.1 r.2

  -- Closing empties the queue, hands over every request that waited, in order, and from then on the
  -- queue refuses every request and stays empty.
  pub closed_forever :
      (s : Shared R) (reqs : List GenerationRequest) (req : GenerationRequest)
      → ((close_and_drain R s).0 ≡ s.queue.requests)
        × ((submit R req (submit_all R reqs (close_and_drain R s).1)).0 ≡ false)
        × ((submit_all R reqs (close_and_drain R s).1).queue.requests ≡ [])
  unfolding close_and_drain
  closed_forever s reqs req =
      let shut = (close_and_drain R s).1 in
      let after = submit_all-closed reqs shut refl refl in
      (refl, (submit-closed req (submit_all R reqs shut) after.0 after.1).0, after.1)
