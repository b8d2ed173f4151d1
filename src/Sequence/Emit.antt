-- ===== src/Sequence/Emit.antt =====
-- What a sequence shows of its tokens: `take_emittable_tokens` never slices backwards, and all that
-- it hands out, joined, is the visible part of the output.
use hotbatch.Base.{
  ℕ, zero, suc, ◌+◌, ◌-◌, ◌≤◌, ◌≡◌, refl, sym, ap, ◌∙◌, inl, inr, Option, none, some, List, [], ◌∷◌,
  ◌++◌, append-nil, append_assoc, arith, Option-cases, length, length-append, take, drop,
}
use hotbatch.KvCache.{KvHandle}
use hotbatch.Sequence.Stops.{matched_stop_len, pending_stop_prefix_len}
use hotbatch.Sequence.Suffix.{
  SomeOverlap-snoc, SomeOverlap-le, pending-max, pending-SomeOverlap, SomeEnd-SomeOverlap,
  take-append_le, take-append-slice, SomeOverlap,
}
use hotbatch.Sequence.Matched.{matched-SomeEnd}
use hotbatch.Sequence.Defs.{
  GenerationRequest, Sequence, start, append_token, safe_end, take_emittable_tokens,
}

pending-le-length :
    (generated : List ℕ) (stops : List (List ℕ))
    → pending_stop_prefix_len generated stops ≤ length generated
pending-le-length generated stops = elim (pending-SomeOverlap generated stops) [
  | inl z ↦ omega arith
  | inr o ↦ SomeOverlap-le generated (pending_stop_prefix_len generated stops) stops o
]

overlap-le-pending :
    (generated : List ℕ) (t k : ℕ) (stops : List (List ℕ))
    → SomeOverlap (generated ++ (t ∷ [])) k stops
    → k ≤ pending_stop_prefix_len generated stops + 1
overlap-le-pending generated t zero stops o = omega arith
overlap-le-pending generated t (suc k) stops o =
    omega (arith, pending-max generated k stops (SomeOverlap-snoc generated t k stops o))

-- One more token holds back at most one more token.
pending-snoc :
    (generated : List ℕ) (t : ℕ) (stops : List (List ℕ))
    → pending_stop_prefix_len (generated ++ (t ∷ [])) stops
      ≤ pending_stop_prefix_len generated stops + 1
pending-snoc generated t stops = elim (pending-SomeOverlap (generated ++ (t ∷ [])) stops) [
  | inl z ↦ omega arith
  | inr o ↦
      overlap-le-pending generated t (pending_stop_prefix_len (generated ++ (t ∷ [])) stops) stops o
]

-- All of a matched stop sequence but its last token was held back before.
matched-snoc :
    (generated : List ℕ) (t m : ℕ) (stops : List (List ℕ))
    → matched_stop_len (generated ++ (t ∷ [])) stops ≡ some m
    → m ≤ pending_stop_prefix_len generated stops + 1
matched-snoc generated t m stops e = overlap-le-pending generated t m stops (
    SomeEnd-SomeOverlap (generated ++ (t ∷ [])) m stops
      (matched-SomeEnd (generated ++ (t ∷ [])) stops m e))

-- The end of the visible part never moves back.
pub safe_end-append :
    (s : Sequence) (t now : ℕ)
    → s.finish_reason ≡ none
    → safe_end s ≤ safe_end (append_token s t now).1
unfolding safe_end append_token
safe_end-append s t now e = elim (Option-cases (matched_stop_len gen' stops)) [
  | inl unmatched ↦ ground (
    arith,
    unmatched,
    e,
    pending-snoc s.generated_tokens t stops,
    length-append s.generated_tokens (t ∷ []),
  )
  | inr (m, matched) ↦ ground (
    arith,
    matched,
    e,
    matched-snoc s.generated_tokens t m stops matched,
    length-append s.generated_tokens (t ∷ []),
  )
]
  where
    stops : List (List ℕ)
    stops = s.sampler.stop_sequences

    gen' : List ℕ
    gen' = s.generated_tokens ++ (t ∷ [])

safe_end-le-length : (s : Sequence) → safe_end s ≤ length s.generated_tokens
unfolding safe_end
safe_end-le-length s = ground arith

-- Everything that may be shown has been handed out.
abbrev pub IsFlushed : Sequence → Type 0
IsFlushed s = s.emitted_tokens ≡ safe_end s

-- `take_emittable_tokens` with its bounds in order: it hands out the tokens from the old mark to the
-- new one.
take_emittable-some :
    (s : Sequence)
    → s.emitted_tokens ≤ safe_end s
    → take_emittable_tokens s
      ≡ some (
        take (safe_end s - s.emitted_tokens) (drop s.emitted_tokens s.generated_tokens),
        record s { emitted_tokens = safe_end s },
      )
unfolding take_emittable_tokens
take_emittable-some s l = ground arith

pub append-emitted :
    (s : Sequence) (t now : ℕ)
    → ((append_token s t now).1.emitted_tokens ≡ s.emitted_tokens)
      × ((append_token s t now).1.generated_tokens ≡ s.generated_tokens ++ (t ∷ []))
      × ((append_token s t now).1.sampler ≡ s.sampler)
unfolding append_token
append-emitted s t now = (ground arith, ground arith, ground arith)

-- After a token is appended to a flushed, unfinished sequence, taking succeeds, flushes it, and
-- continues what was handed out before.
pub take-append :
    (s : Sequence) (t now : ℕ)
    → IsFlushed s
    → s.finish_reason ≡ none
    → (out : List ℕ) × (s' : Sequence) × (take_emittable_tokens (append_token s t now).1
        ≡ some (out, s'))
      × (s'
          ≡ record (append_token s t now).1 { emitted_tokens = safe_end (append_token s t now).1 })
      × IsFlushed s'
      × (s'.generated_tokens ≡ s.generated_tokens ++ (t ∷ []))
      × (take s'.emitted_tokens s'.generated_tokens
          ≡ take s.emitted_tokens s.generated_tokens ++ out)
unfolding safe_end
take-append s t now f e =
    let a = (append_token s t now).1 in
    let (em, gen, sam) = append-emitted s t now in
    let ready : a.emitted_tokens ≤ safe_end a = omega (arith, safe_end-append s t now e, f, em) in
    (
      take (safe_end a - a.emitted_tokens) (drop a.emitted_tokens a.generated_tokens),
      record a { emitted_tokens = safe_end a },
      take_emittable-some a ready,
      refl,
      refl,
      gen,
      ground (
        arith,
        ready,
        em,
        gen,
        f,
        safe_end-le-length s,
        take-append_le s.emitted_tokens s.generated_tokens (t ∷ []),
        take-append-slice a.emitted_tokens (safe_end a - a.emitted_tokens) a.generated_tokens,
      ),
    )

-- The loop body of the scheduler and of the naive engine for one sequence: while there is no terminal
-- reason, append the next sampled token (with its time) and take what may be shown.
unfoldable pub generate : Sequence → List (ℕ × ℕ) → Option (List ℕ × Sequence)
generate s [] = some ([], s)
generate s ((t, now) ∷ ts) = elim s.finish_reason [
  | some r ↦ some ([], s)
  | none ↦ elim (take_emittable_tokens (append_token s t now).1) [
    | none ↦ none
    | some (out, s') ↦ elim (generate s' ts) [
      | none ↦ none
      | some (outs, s'') ↦ some (out ++ outs, s'')
    ]
  ]
]

-- From a flushed sequence the loop never slices backwards; what it hands out continues what was
-- handed out before, up to the visible end of all that was generated.
pub generate-IsFlushed :
    (s : Sequence) (ts : List (ℕ × ℕ))
    → IsFlushed s
    → (outs : List ℕ) × (s' : Sequence) × (generate s ts ≡ some (outs, s'))
      × IsFlushed s'
      × (take s'.emitted_tokens s'.generated_tokens
          ≡ take s.emitted_tokens s.generated_tokens ++ outs)
unfolding generate
generate-IsFlushed s [] f =
    ([], s, refl, f, ground (arith, append-nil (take s.emitted_tokens s.generated_tokens)))
generate-IsFlushed s ((t, now) ∷ ts) f = elim (Option-cases s.finish_reason) [
  | inr (r, e) ↦ (
    [],
    s,
    ground arith,
    f,
    ground (arith, append-nil (take s.emitted_tokens s.generated_tokens)),
  )
  | inl e ↦
      let (out, s', taken, is, f', gen, join) = take-append s t now f e in
      let (outs, s'', rest, f'', join') = generate-IsFlushed s' ts f' in
      (
        out ++ outs,
        s'',
        ground (arith, e, taken, rest),
        f'',
        join'
            ∙ ap (λ l. l ++ outs) join
            ∙ append_assoc (take s.emitted_tokens s.generated_tokens) out outs,
      )
]

pub start-IsFlushed : (req : GenerationRequest) (h : KvHandle) → IsFlushed (start req h)
unfolding start safe_end
start-IsFlushed req h = omega arith

-- For a new request, whatever tokens are sampled, the loop never panics, and all that it hands out,
-- joined, is exactly the generated tokens up to the visible end.
pub generate_shows :
    (req : GenerationRequest) (h : KvHandle) (ts : List (ℕ × ℕ))
    → (outs : List ℕ) × (s' : Sequence) × (generate (start req h) ts ≡ some (outs, s'))
      × (outs ≡ take (safe_end s') s'.generated_tokens)
unfolding start
generate_shows req h ts =
    let (outs, s', run, f, join) = generate-IsFlushed (start req h) ts (start-IsFlushed req h) in
    (outs, s', run, sym join ∙ ap (λ n. take n s'.generated_tokens) f)
