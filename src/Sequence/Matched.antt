-- ===== src/Sequence/Matched.antt =====
-- `matched_stop_len` is the length of the longest stop sequence that ends the output.
use hotbatch.Base.{
  ℕ, ◌≤◌, ◌≡◌, sym, inl, inr, true, false, some, List, [], ◌∷◌, max, map, arith, if◌then◌else◌,
  Bool-cases, Option-cases, length, is_empty, list_eq→eq, list_eq_refl, retain, dec_lt, subst,
}
use hotbatch.Sequence.Stops.{max_of, unwrap_or, last_tokens, ends_with, matched_stop_len}
use hotbatch.Sequence.Suffix.{Overlaps, SomeEnd, take_all}

ends_with-Overlaps :
    (generated stop : List ℕ)
    → ends_with generated stop ≡ true
    → (is_empty stop ≡ false) × Overlaps generated (length stop) stop
ends_with-Overlaps generated stop e = (
  ground arith,
  (
    omega arith,
    ground arith,
    ground (
      arith,
      list_eq→eq (last_tokens (length stop) generated) stop,
      take_all (length stop) stop (omega arith),
    ),
  ),
)

Overlaps-ends_with :
    (generated stop : List ℕ)
    → is_empty stop ≡ false
    → Overlaps generated (length stop) stop
    → ends_with generated stop ≡ true
Overlaps-ends_with generated stop full (a, b, e) =
    ground (arith, list_eq_refl stop, e, take_all (length stop) stop (omega arith))

max_of-some : (x : ℕ) (xs : List ℕ) → max_of (x ∷ xs) ≡ some (max x (unwrap_or (max_of xs) 0))
max_of-some x xs = elim (Option-cases (max_of xs)) [
  | inl e ↦ rw (e, max_of) (ground arith)
  | inr (y, e) ↦ rw (e, max_of)
]

-- With a stop sequence in front: it is counted exactly if it ends the output.
matched-cons :
    (generated stop : List ℕ) (stops : List (List ℕ))
    → matched_stop_len generated (stop ∷ stops) ≡ (
        if ends_with generated stop
        then some (max (length stop) (unwrap_or (matched_stop_len generated stops) 0))
        else matched_stop_len generated stops)
unfolding matched_stop_len
matched-cons generated stop stops = elim (Bool-cases (ends_with generated stop)) [
  | inr miss ↦ rw miss
  | inl hit ↦ rw hit (max_of-some (length stop) (map length (retain (ends_with generated) stops)))
]

-- A match is a stop sequence that ends the output.
pub matched-SomeEnd :
    (generated : List ℕ) (stops : List (List ℕ)) (m : ℕ)
    → matched_stop_len generated stops ≡ some m
    → SomeEnd generated m stops
matched-SomeEnd generated [] m e = absurd (unfold matched_stop_len in (ground arith))
matched-SomeEnd generated (stop ∷ stops) m e = elim (Bool-cases (ends_with generated stop)) [
  | inr miss ↦
      inr (
        matched-SomeEnd generated stops m (ground (arith, miss, matched-cons generated stop stops)))
  | inl hit ↦
      let (full, o) = ends_with-Overlaps generated stop hit in
      elim (dec_lt (length stop) m) [
        | no whole ↦
            let same : length stop ≡ m = ground (arith, hit, matched-cons generated stop stops) in
            inl (full, same, subst (λ j. Overlaps generated j stop) same o)
        | yes longer ↦ inr (
            matched-SomeEnd generated stops m
              (ground (arith, hit, matched-cons generated stop stops)))
      ]
]

-- Every stop sequence that ends the output is matched, by one at least as long.
pub matched-max :
    (generated : List ℕ) (stops : List (List ℕ)) (k : ℕ)
    → SomeEnd generated k stops
    → (m : ℕ) × (matched_stop_len generated stops ≡ some m) × (k ≤ m)
matched-max generated [] k h = absurd h
matched-max generated (stop ∷ stops) k (inl (full, l, o)) = (
  max (length stop) (unwrap_or (matched_stop_len generated stops) 0),
  ground (
    arith,
    matched-cons generated stop stops,
    Overlaps-ends_with generated stop full (subst (λ j. Overlaps generated j stop) (sym l) o),
  ),
  omega arith,
)
matched-max generated (stop ∷ stops) k (inr h) =
    let (m, e, l) = matched-max generated stops k h in
    elim (Bool-cases (ends_with generated stop)) [
      | inl hit ↦ (
        max (length stop) m,
        ground (arith, hit, e, matched-cons generated stop stops),
        omega arith,
      )
      | inr miss ↦ (m, ground (arith, miss, e, matched-cons generated stop stops), l)
    ]
