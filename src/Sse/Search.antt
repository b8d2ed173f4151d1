-- ===== src/Sse/Search.antt =====
-- The two searches of `TextOutputFilter::push`: where a stop sequence stands first, and how much of the
-- text's end may be the start of one.
use hotbatch.Base.{
  ℕ, suc, ◌≤◌, ◌≡◌, refl, sym, subst, ap, ◌∙◌, ◌⊎◌, inl, inr, true, some, List, [], ◌∷◌, ◌++◌,
  arith, min, max, ==_iff, Bool-cases, Option-cases, length, dec_le,
}
use hotbatch.Sequence.Suffix.{Overlaps, longest_prefix-max, longest_prefix-Overlaps}
use hotbatch.Sequence.{longest_prefix}
use hotbatch.Sse.Defs.{starts_with, find, earliest_stop, held_back}

-- The pattern stands in the text with so many characters before it.
pub record Occurs (pattern_ text : List ℕ) (i : ℕ) : Type 0 where
  pub before : List ℕ
  pub behind : List ℕ
  pub here : text ≡ before ++ (pattern_ ++ behind)
  pub offset : length before ≡ i

-- At the offset one of the patterns stands.
abbrev pub SomeOccurs : List (List ℕ) → List ℕ → ℕ → Type 0
SomeOccurs [] text i = ⊥
SomeOccurs (p ∷ ps) text i = Occurs p text i ⊎ SomeOccurs ps text i

starts_with-append :
    (text prefix_ : List ℕ)
    → starts_with text prefix_ ≡ true
    → (behind : List ℕ) × (text ≡ prefix_ ++ behind)
unfolding starts_with
starts_with-append text [] e = (text, refl)
starts_with-append [] (c ∷ cs) e = absurd (ground arith)
starts_with-append (t ∷ ts) (c ∷ cs) e =
    let (behind, p) = starts_with-append ts cs (ground arith) in
    (behind, ground (arith, p, ==_iff t c))

append-starts_with : (prefix_ behind : List ℕ) → starts_with (prefix_ ++ behind) prefix_ ≡ true
unfolding starts_with
append-starts_with [] behind = refl
append-starts_with (c ∷ cs) behind = ground (arith, append-starts_with cs behind, ==_iff c c)

-- An occurrence is at the front, or one in the tail.
Occurs-cons : (t : ℕ) (ts p : List ℕ) (i : ℕ) → Occurs p ts i → Occurs p (t ∷ ts) (suc i)
Occurs-cons t ts p i o = record {
  before = t ∷ o.before;
  behind = o.behind;
  here = ap (◌∷◌ t) o.here;
  offset = ap suc o.offset;
}

find-Occurs : (text p : List ℕ) (i : ℕ) → find text p ≡ some i → Occurs p text i
unfolding find
find-Occurs [] [] i e = record { before = []; behind = []; here = refl; offset = ground (arith, e) }
find-Occurs [] (c ∷ cs) i e = absurd (ground (arith, e))
find-Occurs (t ∷ ts) p i e = elim (Bool-cases (starts_with (t ∷ ts) p)) [
  | inl front ↦
      let (behind, q) = starts_with-append (t ∷ ts) p front in
      record { before = []; behind = behind; here = q; offset = ground (arith, e, front) }
  | inr later ↦ elim (Option-cases (find ts p)) [
    | inl lost ↦ absurd (ground (arith, e, later, lost))
    | inr (j, found) ↦
        subst (Occurs p (t ∷ ts)) (ground (arith, e, later, found))
          (Occurs-cons t ts p j (find-Occurs ts p j found))
  ]
]

find_front : (text p behind : List ℕ) → text ≡ p ++ behind → find text p ≡ some 0
unfolding find
find_front [] [] behind e = refl
find_front [] (c ∷ cs) behind e = absurd (ground (arith, e))
find_front (t ∷ ts) p behind e =
    let front : starts_with (t ∷ ts) p ≡ true =
      subst (λ text. starts_with text p ≡ true) (sym e) (append-starts_with p behind) in
    ground (arith, front)

-- The search finds something no later than any occurrence.
find-first :
    (text p before behind : List ℕ)
    → text ≡ before ++ (p ++ behind)
    → (i : ℕ) × (find text p ≡ some i) × (i ≤ length before)
unfolding find
find-first text p [] behind e = (0, find_front text p behind e, omega arith)
find-first [] p (b ∷ bs) behind e = absurd (ground (arith, e))
find-first (t ∷ ts) p (b ∷ bs) behind e =
    let (i, found, early) = find-first ts p bs behind (ground (arith, e)) in
    elim (Bool-cases (starts_with (t ∷ ts) p)) [
      | inl front ↦ (0, ground (arith, front), omega arith)
      | inr later ↦ (suc i, ground (arith, later, found), omega (arith, early))
    ]

Occurs-find :
    (text p : List ℕ) (j : ℕ) → Occurs p text j → (i : ℕ) × (find text p ≡ some i) × (i ≤ j)
Occurs-find text p j o =
    let (i, found, early) = find-first text p o.before o.behind o.here in
    (i, found, omega (arith, early, o.offset))

-- The first place at which any of the patterns stands.
pub earliest_stop-SomeOccurs :
    (stops : List (List ℕ)) (text : List ℕ) (i : ℕ)
    → earliest_stop stops text ≡ some i
    → SomeOccurs stops text i
unfolding earliest_stop
earliest_stop-SomeOccurs [] text i e = absurd (ground (arith, e))
earliest_stop-SomeOccurs (p ∷ ps) text i e = elim (Option-cases (find text p)) [
  | inl lost ↦ inr (earliest_stop-SomeOccurs ps text i (ground (arith, e, lost)))
  | inr (k, found) ↦ elim (Option-cases (earliest_stop ps text)) [
    | inl lost ↦ inl (find-Occurs text p i (ground (arith, e, found, lost)))
    | inr (j, rest) ↦ elim (dec_le k j) [
      | yes first ↦ inl (find-Occurs text p i (ground (arith, e, found, rest, first)))
      | no later ↦ inr (earliest_stop-SomeOccurs ps text i (ground (arith, e, found, rest, later)))
    ]
  ]
]

-- Where one stands, the first place is found, and it is no later.
pub SomeOccurs-earliest_stop :
    (stops : List (List ℕ)) (text : List ℕ) (j : ℕ)
    → SomeOccurs stops text j
    → (i : ℕ) × (earliest_stop stops text ≡ some i) × (i ≤ j)
unfolding earliest_stop
SomeOccurs-earliest_stop [] text j o = absurd o
SomeOccurs-earliest_stop (p ∷ ps) text j (inl o) =
    let (k, found, early) = Occurs-find text p j o in
    elim (Option-cases (earliest_stop ps text)) [
      | inl lost ↦ (k, ground (arith, found, lost), early)
      | inr (i, rest) ↦ (min k i, ground (arith, found, rest), omega (arith, early))
    ]
SomeOccurs-earliest_stop (p ∷ ps) text j (inr o) =
    let (i, rest, early) = SomeOccurs-earliest_stop ps text j o in
    elim (Option-cases (find text p)) [
      | inl lost ↦ (i, ground (arith, rest, lost), early)
      | inr (k, found) ↦ (min k i, ground (arith, found, rest), omega (arith, early))
    ]

-- At the end of the text stand the first `k` characters of one of the patterns.
abbrev pub SomeStart : List (List ℕ) → List ℕ → ℕ → Type 0
SomeStart [] text k = ⊥
SomeStart (p ∷ ps) text k = Overlaps text k p ⊎ SomeStart ps text k

pub SomeStart-held_back :
    (stops : List (List ℕ)) (text : List ℕ) (k : ℕ)
    → SomeStart stops text k
    → k ≤ held_back stops text
unfolding held_back
SomeStart-held_back [] text k o = absurd o
SomeStart-held_back (p ∷ ps) text k (inl o) = omega (arith, longest_prefix-max text p k o)
SomeStart-held_back (p ∷ ps) text k (inr o) = omega (arith, SomeStart-held_back ps text k o)

pub held_back-SomeStart :
    (stops : List (List ℕ)) (text : List ℕ)
    → (held_back stops text ≡ 0) ⊎ SomeStart stops text (held_back stops text)
unfolding held_back
held_back-SomeStart [] text = inl refl
held_back-SomeStart (p ∷ ps) text = elim (dec_le (longest_prefix text p) (held_back ps text)) [
  | yes less ↦
      let same : max (longest_prefix text p) (held_back ps text) ≡ held_back ps text =
        omega (arith, less) in
      elim (held_back-SomeStart ps text) [
        | inl z ↦ inl (same ∙ z)
        | inr o ↦ inr (inr (subst (SomeStart ps text) (sym same) o))
      ]
  | no more ↦
      let same : max (longest_prefix text p) (held_back ps text) ≡ longest_prefix text p =
        omega (arith, more) in
      elim (longest_prefix-Overlaps text p) [
        | inl z ↦ inl (same ∙ z)
        | inr o ↦ inr (inl (subst (λ k. Overlaps text k p) (sym same) o))
      ]
]
