-- ===== src/Queue/Order.antt =====
-- Which request `try_pop` takes.
use hotbatch.Base.{
  ℕ, suc, ◌+◌, ◌≤◌, ◌<◌, ◌≡◌, refl, sym, ap, ap₂, ◌∙◌, ◌⊎◌, inl, inr, none, some, List, [], ◌∷◌,
  ◌++◌, append-nil, append_assoc, subst, arith, ltb, Bool-cases, length, length-append, All,
  All-append,
}
use hotbatch.Sequence.{GenerationRequest}
use hotbatch.Queue.Defs.{remove_at, best_from, take_best}

-- `req` is the first of the requests with the highest priority: all before it have a lower one, and
-- none after it has a higher one.
pub record Chosen (reqs : List GenerationRequest) (i : ℕ) : Type 0 where
  pub before : List GenerationRequest
  pub req : GenerationRequest
  pub behind : List GenerationRequest
  pub split : reqs ≡ before ++ (req ∷ behind)
  pub place : i ≡ length before
  pub lower : All (λ r. r.priority < req.priority) before
  pub not_higher : All (λ r. r.priority ≤ req.priority) behind

remove_at-place :
    (before : List GenerationRequest) (req : GenerationRequest) (behind : List GenerationRequest)
    → remove_at (before ++ (req ∷ behind)) (length before) ≡ some (req, before ++ behind)
unfolding remove_at
remove_at-place [] req behind = refl
remove_at-place (r ∷ before) req behind = ground (arith, remove_at-place before req behind)

All-lt :
    (p q : ℕ) (rs : List GenerationRequest)
    → p ≤ q
    → All (λ r. r.priority < p) rs
    → All (λ r. r.priority < q) rs
All-lt p q [] l a = tt
All-lt p q (r ∷ rs) l a = (omega arith, All-lt p q rs l a.1)

All-le-lt :
    (p q : ℕ) (rs : List GenerationRequest)
    → p < q
    → All (λ r. r.priority ≤ p) rs
    → All (λ r. r.priority < q) rs
All-le-lt p q [] l a = tt
All-le-lt p q (r ∷ rs) l a = (omega arith, All-le-lt p q rs l a.1)

-- The invariant of the search: `best` is chosen among the requests before `index`.
best_from-Chosen :
    (before : List GenerationRequest) (req : GenerationRequest) (mid reqs : List GenerationRequest)
    (index : ℕ)
    → index ≡ length before + suc (length mid)
    → All (λ r. r.priority < req.priority) before
    → All (λ r. r.priority ≤ req.priority) mid
    → Chosen (before ++ (req ∷ (mid ++ reqs))) (best_from reqs index (length before) req.priority)
unfolding best_from
best_from-Chosen before req mid [] index e lo hi = record {
  before = before;
  req = req;
  behind = mid;
  split = ap (λ l. before ++ (req ∷ l)) (append-nil mid);
  place = refl;
  lower = lo;
  not_higher = hi;
}
best_from-Chosen before req mid (r ∷ reqs) index e lo hi =
    elim (Bool-cases (ltb req.priority r.priority)) [
      | inl better ↦
          rw (better, (e ∙ sym (length-append before (req ∷ mid))))
            (subst
              (λ l. Chosen l (
                best_from reqs (length (before ++ (req ∷ mid)) + 1) (length (before ++ (req ∷ mid)))
                  r.priority))
              (append_assoc before (req ∷ mid) (r ∷ reqs))
              (best_from-Chosen (before ++ (req ∷ mid)) r [] reqs
                (length (before ++ (req ∷ mid)) + 1) (omega arith)
                (All-append (λ x. x.priority < r.priority) before (req ∷ mid)
                  (All-lt req.priority r.priority before (ground arith) lo)
                  (ground arith, All-le-lt req.priority r.priority mid (ground arith) hi))
                tt))
      | inr worse ↦ rw worse (
          subst
            (λ l.
              Chosen (before ++ (req ∷ l))
                (best_from reqs (index + 1) (length before) req.priority))
            (append_assoc mid (r ∷ []) reqs)
            (best_from-Chosen before req (mid ++ (r ∷ [])) reqs (index + 1)
              (omega (arith, e, length-append mid (r ∷ []))) lo
              (All-append (λ x. x.priority ≤ req.priority) mid (r ∷ []) hi (ground arith, tt))))
    ]

Chosen-remove_at :
    {reqs : List GenerationRequest} {i : ℕ} (c : Chosen reqs i)
    → remove_at reqs i ≡ some (c.req, c.before ++ c.behind)
Chosen-remove_at c = ap₂ remove_at c.split c.place ∙ remove_at-place c.before c.req c.behind

-- `try_pop` takes from a nonempty queue the first of the requests with the highest priority, and
-- leaves the others in their order.
pub take_best-Chosen :
    (reqs : List GenerationRequest)
    → (reqs ≡ [])
      ⊎ ((before : List GenerationRequest) × (req : GenerationRequest) × (behind : List
            GenerationRequest)
          × (reqs ≡ before ++ (req ∷ behind))
          × (take_best reqs ≡ some (req, before ++ behind))
          × All (λ r. r.priority < req.priority) before
          × All (λ r. r.priority ≤ req.priority) behind)
unfolding take_best
take_best-Chosen [] = inl refl
take_best-Chosen (front ∷ reqs) =
    let c = best_from-Chosen [] front [] reqs 1 (omega arith) tt tt in
    inr (c.before, c.req, c.behind, c.split, Chosen-remove_at c, c.lower, c.not_higher)

pub take_best-nil : take_best [] ≡ none
unfolding take_best
take_best-nil = refl
