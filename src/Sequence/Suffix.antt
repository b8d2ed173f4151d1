-- ===== src/Sequence/Suffix.antt =====
-- The two searches find the longest match: lemmas on the ends of lists, and the characterisations
-- of `matched_stop_len` and `pending_stop_prefix_len`.
use hotbatch.Base.{
  ℕ, zero, suc, ◌+◌, ◌-◌, ◌≤◌, ◌<◌, ◌≡◌, refl, sym, ap, subst, ◌∙◌, ◌⊎◌, inl, inr, false, not, List,
  [], ◌∷◌, ◌++◌, map, min, max, arith, if◌then◌else◌, Bool-cases, Option-cases, length,
  length-append, length-drop, ℕ_discrete, dec_lt, take, drop, is_empty, list_eq, list_eq→eq,
  list_eq_refl, retain,
}
use hotbatch.Sequence.Stops.{
  max_of, unwrap_or, last_tokens, find_prefix, longest_prefix, pending_stop_prefix_len,
}

module _ {ℓ} {A : Type ℓ} where
  take-take-suc : (k : ℕ) (xs : List A) → take k (take (suc k) xs) ≡ take k xs
  take-take-suc zero xs = refl
  take-take-suc (suc k) [] = refl
  take-take-suc (suc k) (x ∷ xs) = ap (◌∷◌ x) (take-take-suc k xs)

  take-append_left : (k : ℕ) (xs ys : List A) → length xs ≡ k → take k (xs ++ ys) ≡ xs
  take-append_left zero [] ys h = refl
  take-append_left zero (x ∷ xs) ys h = absurd (omega arith)
  take-append_left (suc k) [] ys h = absurd (omega arith)
  take-append_left (suc k) (x ∷ xs) ys h = ap (◌∷◌ x) (take-append_left k xs ys (omega arith))

  pub take-append_le : (k : ℕ) (xs ys : List A) → k ≤ length xs → take k (xs ++ ys) ≡ take k xs
  take-append_le zero xs ys h = refl
  take-append_le (suc k) [] ys h = absurd (omega arith)
  take-append_le (suc k) (x ∷ xs) ys h = ap (◌∷◌ x) (take-append_le k xs ys (omega arith))

  drop-append : (n : ℕ) (xs ys : List A) → n ≤ length xs → drop n (xs ++ ys) ≡ drop n xs ++ ys
  drop-append zero xs ys h = refl
  drop-append (suc n) [] ys h = absurd (omega arith)
  drop-append (suc n) (x ∷ xs) ys h = drop-append n xs ys (omega arith)

  pub take_all : (n : ℕ) (xs : List A) → length xs ≤ n → take n xs ≡ xs
  take_all zero [] h = refl
  take_all zero (x ∷ xs) h = absurd (omega arith)
  take_all (suc n) [] h = refl
  take_all (suc n) (x ∷ xs) h = ap (◌∷◌ x) (take_all n xs (omega arith))

  -- The slice from `a` to `a + n` continues the first `a` elements.
  pub take-append-slice :
      (a n : ℕ) (xs : List A) → take a xs ++ take n (drop a xs) ≡ take (a + n) xs
  take-append-slice zero n xs = ap (λ k. take k xs) (omega arith)
  take-append-slice (suc a) n [] =
      take_all n [] (omega arith) ∙ sym (take_all (suc a + n) [] (omega arith))
  take-append-slice (suc a) n (x ∷ xs) =
      ap (◌∷◌ x) (take-append-slice a n xs) ∙ ap (λ k. take k (x ∷ xs)) shift
    where
      shift : suc (a + n) ≡ suc a + n
      shift = omega arith

-- The last `k` tokens are the first `k` of `stop`.
abbrev pub Overlaps : List ℕ → ℕ → List ℕ → Type 0
Overlaps generated k stop =
    (k ≤ length stop) × (k ≤ length generated) × (last_tokens k generated ≡ take k stop)

-- An overlap of `k + 1` that ends in a new token was one of `k` before that token.
Overlaps-snoc :
    (generated stop : List ℕ) (t k : ℕ)
    → Overlaps (generated ++ (t ∷ [])) (suc k) stop
    → Overlaps generated k stop
Overlaps-snoc generated stop t k (a, b, e) = (omega arith, short, overlap)
  where
    short : k ≤ length generated
    short = omega (arith, length-append generated (t ∷ []))

    tail : last_tokens (suc k) (generated ++ (t ∷ [])) ≡ last_tokens k generated ++ (t ∷ [])
    tail =
        ap (λ n. drop n (generated ++ (t ∷ []))) (omega (arith, length-append generated (t ∷ [])))
        ∙ drop-append (length generated - k) generated (t ∷ []) (omega arith)

    overlap : last_tokens k generated ≡ take k stop
    overlap =
        sym (
          take-append_left k (last_tokens k generated) (t ∷ [])
            (omega (arith, short, length-drop (length generated - k) generated)))
        ∙ ap (take k) (sym tail ∙ e)
        ∙ take-take-suc k stop

-- Some nonempty stop sequence overlaps the output's end by `k`.
abbrev pub SomeOverlap : List ℕ → ℕ → List (List ℕ) → Type 0
SomeOverlap generated k [] = ⊥
SomeOverlap generated k (stop ∷ stops) =
    ((is_empty stop ≡ false) × Overlaps generated k stop) ⊎ SomeOverlap generated k stops

pub SomeOverlap-snoc :
    (generated : List ℕ) (t k : ℕ) (stops : List (List ℕ))
    → SomeOverlap (generated ++ (t ∷ [])) (suc k) stops
    → SomeOverlap generated k stops
SomeOverlap-snoc generated t k [] h = h
SomeOverlap-snoc generated t k (stop ∷ stops) (inl (full, o)) =
    inl (full, Overlaps-snoc generated stop t k o)
SomeOverlap-snoc generated t k (stop ∷ stops) (inr h) = inr (SomeOverlap-snoc generated t k stops h)

pub SomeOverlap-le :
    (generated : List ℕ) (k : ℕ) (stops : List (List ℕ))
    → SomeOverlap generated k stops
    → k ≤ length generated
SomeOverlap-le generated k [] h = absurd h
SomeOverlap-le generated k (stop ∷ stops) (inl (full, o)) = o.1
SomeOverlap-le generated k (stop ∷ stops) (inr h) = SomeOverlap-le generated k stops h

-- The downward search returns the largest overlap up to its bound.
find_prefix-max :
    (generated stop : List ℕ) (n k : ℕ)
    → k ≤ n
    → last_tokens k generated ≡ take k stop
    → k ≤ unwrap_or (find_prefix generated stop n) 0
unfolding find_prefix
find_prefix-max generated stop zero k l e = l
find_prefix-max generated stop (suc n) k l e =
    elim (Bool-cases (list_eq (last_tokens (suc n) generated) (take (suc n) stop))) [
      | inl hit ↦ rw hit l
      | inr miss ↦ rw miss (find_prefix-max generated stop n k (below miss) e)
    ]
  where
    below : list_eq (last_tokens (suc n) generated) (take (suc n) stop) ≡ false → k ≤ n
    below miss = elim (ℕ_discrete k (suc n)) [
      | yes same ↦ absurd (
          ground (
            arith,
            miss,
            list_eq_refl (take (suc n) stop),
            subst (λ j. last_tokens j generated ≡ take j stop) same e,
          ))
      | no other ↦ omega arith
    ]

find_prefix-found :
    (generated stop : List ℕ) (n : ℕ)
    → (unwrap_or (find_prefix generated stop n) 0 ≡ 0)
      ⊎ ((unwrap_or (find_prefix generated stop n) 0 ≤ n)
          × (last_tokens (unwrap_or (find_prefix generated stop n) 0) generated
              ≡ take (unwrap_or (find_prefix generated stop n) 0) stop))
unfolding find_prefix
find_prefix-found generated stop zero = inl refl
find_prefix-found generated stop (suc n) =
    elim (Bool-cases (list_eq (last_tokens (suc n) generated) (take (suc n) stop))) [
      | inl hit ↦ rw hit (inr (omega arith, list_eq→eq _ _ hit))
      | inr miss ↦ rw miss (elim (find_prefix-found generated stop n) [
        | inl none_found ↦ inl none_found
        | inr (l, e) ↦ inr (omega arith, e)
      ])
    ]

pub longest_prefix-max :
    (generated stop : List ℕ) (k : ℕ)
    → Overlaps generated k stop
    → k ≤ longest_prefix generated stop
unfolding longest_prefix
longest_prefix-max generated stop k (a, b, e) =
    find_prefix-max generated stop (min (length stop) (length generated)) k (omega arith) e

pub longest_prefix-Overlaps :
    (generated stop : List ℕ)
    → (longest_prefix generated stop ≡ 0) ⊎ Overlaps generated (longest_prefix generated stop) stop
unfolding longest_prefix
longest_prefix-Overlaps generated stop =
    elim (find_prefix-found generated stop (min (length stop) (length generated))) [
      | inl z ↦ inl z
      | inr (l, e) ↦ inr (omega arith, omega arith, e)
    ]

-- `max_of` of a list with one more element in front.
max_of-cons :
    (x : ℕ) (xs : List ℕ) → unwrap_or (max_of (x ∷ xs)) 0 ≡ max x (unwrap_or (max_of xs) 0)
max_of-cons x xs = elim (Option-cases (max_of xs)) [
  | inl e ↦ rw (e, max_of) (omega arith)
  | inr (y, e) ↦ rw (e, max_of)
]

pending-cons :
    (generated stop : List ℕ) (stops : List (List ℕ))
    → pending_stop_prefix_len generated (stop ∷ stops) ≡ (
        if is_empty stop
        then pending_stop_prefix_len generated stops
        else max (longest_prefix generated stop) (pending_stop_prefix_len generated stops))
unfolding pending_stop_prefix_len
pending-cons generated [] stops = refl
pending-cons generated (t ∷ stop) stops =
    max_of-cons (longest_prefix generated (t ∷ stop))
      (map (longest_prefix generated) (retain (λ stop. not (is_empty stop)) stops))

-- `pending_stop_prefix_len` is at least every overlap of the output's end with a stop sequence.
pub pending-max :
    (generated : List ℕ) (k : ℕ) (stops : List (List ℕ))
    → SomeOverlap generated k stops
    → k ≤ pending_stop_prefix_len generated stops
pending-max generated k [] h = absurd h
pending-max generated k (stop ∷ stops) (inl (full, o)) =
    ground (arith, full, pending-cons generated stop stops, longest_prefix-max generated stop k o)
pending-max generated k (stop ∷ stops) (inr h) =
    ground (arith, pending-cons generated stop stops, pending-max generated k stops h)

-- An overlap with a later stop sequence, at an equal length.
SomeOverlap-later :
    (generated stop : List ℕ) (stops : List (List ℕ)) (k j : ℕ)
    → k ≡ j
    → (j ≡ 0) ⊎ SomeOverlap generated j stops
    → (k ≡ 0) ⊎ SomeOverlap generated k (stop ∷ stops)
SomeOverlap-later generated stop stops k j p (inl z) = inl (p ∙ z)
SomeOverlap-later generated stop stops k j p (inr o) =
    inr (inr (subst (λ i. SomeOverlap generated i stops) (sym p) o))

-- `pending_stop_prefix_len` is itself the length of such an overlap, or 0.
pub pending-SomeOverlap :
    (generated : List ℕ) (stops : List (List ℕ))
    → (pending_stop_prefix_len generated stops ≡ 0)
      ⊎ SomeOverlap generated (pending_stop_prefix_len generated stops) stops
pending-SomeOverlap generated [] = inl (unfold pending_stop_prefix_len in refl)
pending-SomeOverlap generated (stop ∷ stops) = elim (Bool-cases (is_empty stop)) [
  | inl blank ↦
      SomeOverlap-later generated stop stops (pending_stop_prefix_len generated (stop ∷ stops))
        (pending_stop_prefix_len generated stops)
        (ground (arith, blank, pending-cons generated stop stops))
        (pending-SomeOverlap generated stops)
  | inr full ↦
      let a = longest_prefix generated stop in
      let b = pending_stop_prefix_len generated stops in
      elim (dec_lt b a) [
        | yes more ↦
            let p : pending_stop_prefix_len generated (stop ∷ stops) ≡ a =
              ground (arith, full, pending-cons generated stop stops) in
            elim (longest_prefix-Overlaps generated stop) [
              | inl z ↦ inl (p ∙ z)
              | inr o ↦ inr (inl (full, subst (λ k. Overlaps generated k stop) (sym p) o))
            ]
        | no less ↦
            SomeOverlap-later generated stop stops
              (pending_stop_prefix_len generated (stop ∷ stops))
              (pending_stop_prefix_len generated stops)
              (ground (arith, full, pending-cons generated stop stops))
              (pending-SomeOverlap generated stops)
      ]
]

-- Some nonempty stop sequence of `k` tokens is the output's end.
abbrev pub SomeEnd : List ℕ → ℕ → List (List ℕ) → Type 0
SomeEnd generated k [] = ⊥
SomeEnd generated k (stop ∷ stops) =
    ((is_empty stop ≡ false) × (length stop ≡ k) × Overlaps generated k stop)
    ⊎ SomeEnd generated k stops

pub SomeEnd-SomeOverlap :
    (generated : List ℕ) (k : ℕ) (stops : List (List ℕ))
    → SomeEnd generated k stops
    → SomeOverlap generated k stops
SomeEnd-SomeOverlap generated k [] h = h
SomeEnd-SomeOverlap generated k (stop ∷ stops) (inl (full, l, o)) = inl (full, o)
SomeEnd-SomeOverlap generated k (stop ∷ stops) (inr h) =
    inr (SomeEnd-SomeOverlap generated k stops h)

pub SomeEnd-pos :
    (generated : List ℕ) (k : ℕ) (stops : List (List ℕ)) → SomeEnd generated k stops → 0 < k
SomeEnd-pos generated k [] h = absurd h
SomeEnd-pos generated k ([] ∷ stops) (inl (full, l, o)) = absurd (ground arith)
SomeEnd-pos generated k ((t ∷ stop) ∷ stops) (inl (full, l, o)) = omega arith
SomeEnd-pos generated k (stop ∷ stops) (inr h) = SomeEnd-pos generated k stops h
