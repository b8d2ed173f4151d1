-- ===== src/Sequence/Limit.antt =====
-- Generation ends: the token limit is kept, and is reached if nothing else stops the sequence.
use hotbatch.Base.{
  ℕ, ◌+◌, ◌≤◌, ◌<◌, ◌≡◌, sym, subst, ◌≢◌, inl, inr, none, some, List, [], ◌∷◌, arith, Option-cases,
  length, length-append,
}
use hotbatch.KvCache.{KvHandle}
use hotbatch.Sequence.Defs.{GenerationRequest, Sequence, start, append_token, max_new_tokens}
use hotbatch.Sequence.Emit.{
  generate, IsFlushed, start-IsFlushed, append-emitted, take-append, generate-IsFlushed,
}

-- Within the limit: unfinished below it, and never above it.
pub record IsWithin (s : Sequence) : Type 0 where
  pub open_below : s.finish_reason ≡ none → length s.generated_tokens < s.sampler.max_new_tokens
  pub bounded : length s.generated_tokens ≤ s.sampler.max_new_tokens

-- `append_token` on an unfinished sequence stays within the token limit.
pub append_token-IsWithin :
    (s : Sequence) (t now : ℕ)
    → s.finish_reason ≡ none
    → IsWithin s
    → IsWithin (append_token s t now).1
unfolding append_token
append_token-IsWithin s t now e w = record {
  open_below = λ f. ground (arith, w.open_below, f, e, length-append s.generated_tokens (t ∷ []));
  bounded = ground (arith, w.open_below, e, length-append s.generated_tokens (t ∷ []));
}

-- The loop's result is finished and within the limit, if there were tokens enough.
generate_ends :
    (s : Sequence) (ts : List (ℕ × ℕ)) (outs : List ℕ) (s' : Sequence)
    → IsFlushed s
    → IsWithin s
    → s.sampler.max_new_tokens ≤ length s.generated_tokens + length ts
    → generate s ts ≡ some (outs, s')
    → (s'.finish_reason ≢ none) × (length s'.generated_tokens ≤ s.sampler.max_new_tokens)
unfolding generate
generate_ends s [] outs s' f w enough e =
    (λ n. ground (arith, w.open_below), ground (arith, w.bounded))
generate_ends s ((t, now) ∷ ts) outs s' f w enough e = elim (Option-cases s.finish_reason) [
  | inr (r, done) ↦ (λ n. ground arith, ground (arith, w.bounded))
  | inl going ↦
      let (out, s1, taken, is, f1, gen, join) = take-append s t now f going in
      elim (Option-cases (generate s1 ts)) [
        | inl lost ↦ absurd (ground (arith, going, taken, lost, e))
        | inr (pair, rest) ↦
            let same : s1.sampler ≡ s.sampler = ground (arith, is, append-emitted s t now) in
            let r =
              generate_ends s1 ts pair.0 s' f1
                (subst IsWithin (sym is) (record {
                  open_below = (append_token-IsWithin s t now going w).open_below;
                  bounded = (append_token-IsWithin s t now going w).bounded;
                }))
                (ground (arith, same, gen, enough, length-append s.generated_tokens (t ∷ [])))
                (ground (arith, going, taken, rest, e)) in
            (r.0, ground (arith, r.1, same))
      ]
]

-- For a new request with a positive token limit, as many sampled tokens as the limit always finish
-- the sequence: the loop returns, with a terminal reason and no more tokens than the limit.
pub generate_finishes :
    (req : GenerationRequest) (h : KvHandle) (ts : List (ℕ × ℕ))
    → 0 < max_new_tokens req
    → max_new_tokens req ≤ length ts
    → (outs : List ℕ) × (s' : Sequence) × (generate (start req h) ts ≡ some (outs, s'))
      × (s'.finish_reason ≢ none)
      × (length s'.generated_tokens ≤ max_new_tokens req)
unfolding start max_new_tokens
generate_finishes req h ts pos enough =
    let (outs, s', run, f, join) = generate-IsFlushed (start req h) ts (start-IsFlushed req h) in
    let (done, bound) =
      generate_ends (start req h) ts outs s' (start-IsFlushed req h)
        (record { open_below = λ e. pos; bounded = omega arith }) (omega arith) run in
    (outs, s', run, done, bound)
