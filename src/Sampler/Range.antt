-- ===== src/Sampler/Range.antt =====
-- A drawn token is an index of its row, whatever the floats do.
use hotbatch.Base.{
  ℕ, zero, suc, ◌+◌, ◌≤◌, ◌<◌, ◌^◌, ◌≡◌, refl, inl, inr, Bool, Option, none, some, List, [], ◌∷◌,
  max, arith, if◌then◌else◌, Bool-cases, Option-cases, length, take, All,
}
use hotbatch.Sampler.Defs.{Sampler}
use hotbatch.Sampler.Draw.{
  Floats, enumerate, argmax_from, argmax, place, sort_down, truncate_top_k, weigh, total_from,
  nucleus, pick, next_f64, weighted, sample, first_value,
}

-- Every candidate is an index below `n`.
abbrev AllBelow : ℕ → List (ℕ × ℕ) → Type 0
AllBelow n = All (λ c. c.0 < n)

AllBelow-enumerate : (i n : ℕ) (vs : List ℕ) → i + length vs ≤ n → AllBelow n (enumerate i vs)
AllBelow-enumerate i n [] h = tt
AllBelow-enumerate i n (v ∷ vs) h = (omega arith, AllBelow-enumerate (suc i) n vs (omega arith))

AllBelow-take : (n k : ℕ) (cs : List (ℕ × ℕ)) → AllBelow n cs → AllBelow n (take k cs)
AllBelow-take n zero cs h = tt
AllBelow-take n (suc k) [] h = tt
AllBelow-take n (suc k) (c ∷ cs) h = (h.0, AllBelow-take n k cs h.1)

AllBelow-place :
    (n : ℕ) (le : ℕ → ℕ → Bool) (x : ℕ × ℕ) (cs : List (ℕ × ℕ))
    → x.0 < n
    → AllBelow n cs
    → AllBelow n (place le x cs)
unfolding place
AllBelow-place n le x [] hx h = (hx, tt)
AllBelow-place n le x (y ∷ ys) hx h = elim (Bool-cases (le y.1 x.1)) [
  | inl t ↦ rw t (hx, (h.0, h.1))
  | inr f ↦ rw f (h.0, AllBelow-place n le x ys hx h.1)
]

AllBelow-sort :
    (n : ℕ) (le : ℕ → ℕ → Bool) (cs : List (ℕ × ℕ)) → AllBelow n cs → AllBelow n (sort_down le cs)
unfolding sort_down
AllBelow-sort n le [] h = tt
AllBelow-sort n le (c ∷ cs) h =
    AllBelow-place n le c (sort_down le cs) h.0 (AllBelow-sort n le cs h.1)

AllBelow-truncate :
    (n : ℕ) (k : Option ℕ) (cs : List (ℕ × ℕ)) → AllBelow n cs → AllBelow n (truncate_top_k k cs)
unfolding truncate_top_k
AllBelow-truncate n none cs h = h
AllBelow-truncate n (some k) cs h = AllBelow-take n (max k 1) cs h

module _ (F : Floats) (n : ℕ) where
  argmax_from-lt :
      (row : List ℕ) (i best value : ℕ)
      → i + length row ≤ n
      → best < n
      → argmax_from F row i best value < n
  unfolding argmax_from
  argmax_from-lt [] i best value h b = b
  argmax_from-lt (v ∷ vs) i best value h b =
      argmax_from-lt vs (suc i) (if F.lt32 value v then i else best)
        (if F.lt32 value v then v else value) (omega arith) (ground arith)

  AllBelow-weigh : (t m : ℕ) (cs : List (ℕ × ℕ)) → AllBelow n cs → AllBelow n (weigh F t m cs)
  unfolding weigh
  AllBelow-weigh t m [] h = tt
  AllBelow-weigh t m (c ∷ cs) h = (h.0, AllBelow-weigh t m cs h.1)

  AllBelow-nucleus :
      (total threshold cumulative : ℕ) (cs : List (ℕ × ℕ))
      → AllBelow n cs
      → AllBelow n (nucleus F total threshold cumulative cs)
  unfolding nucleus
  AllBelow-nucleus total threshold cumulative [] h = tt
  AllBelow-nucleus total threshold cumulative (c ∷ cs) h =
      let next = F.add64 cumulative (if F.lt64 0 total then F.div64 c.1 total else 0) in
      elim (Bool-cases (F.le64 threshold next)) [
        | inl t ↦ rw t (h.0, tt)
        | inr f ↦ rw f (h.0, AllBelow-nucleus total threshold next cs h.1)
      ]

  pick-lt :
      (target t : ℕ) (cs : List (ℕ × ℕ))
      → AllBelow n cs
      → n ≤ 2 ^ 32
      → pick F target cs ≡ some t
      → t < n
  unfolding pick
  pick-lt target t [] h small e = absurd (ground arith)
  pick-lt target t (c ∷ cs) h small e = elim (Bool-cases (F.le64 target c.1)) [
    | inl hit ↦ ground arith
    | inr miss ↦ pick-lt (F.sub64 target c.1) t cs h.1 small (ground arith)
  ]

  AllBelow-weighted :
      (s : Sampler) (row : List ℕ) → length row ≡ n → AllBelow n (weighted F s row).0
  unfolding weighted
  AllBelow-weighted s row e = elim (Bool-cases (F.lt32 s.top_p 0x3f7f_be77)) [
    | inl t ↦ rw t (
        AllBelow-nucleus (total_from F 0 raw) (F.widen (F.clamp32 s.top_p 0x3a83_126f 0x3f80_0000))
          0 (sort_down F.total_le64 raw) sorted)
    | inr f ↦ rw f sorted
  ]
    where
      candidates : List (ℕ × ℕ)
      candidates = truncate_top_k s.top_k (sort_down F.total_le32 (enumerate 0 row))

      raw : List (ℕ × ℕ)
      raw = weigh F (F.max32 s.temperature 0x3a83_126f) (first_value candidates) candidates

      sorted : AllBelow n (sort_down F.total_le64 raw)
      sorted = AllBelow-sort n F.total_le64 raw (
          AllBelow-weigh (F.max32 s.temperature 0x3a83_126f) (first_value candidates) candidates (
            AllBelow-truncate n s.top_k (sort_down F.total_le32 (enumerate 0 row)) (
              AllBelow-sort n F.total_le32 (enumerate 0 row)
                (AllBelow-enumerate 0 n row (omega arith)))))

argmax-lt :
    (F : Floats) (row : List ℕ) → 0 < length row → length row ≤ 2 ^ 32 → argmax F row < length row
unfolding argmax
argmax-lt F row pos small =
    let l = argmax_from-lt F (length row) row 0 0 0xff80_0000 (omega arith) pos in omega arith

-- With a nonempty row of at most 2^32 logits, the sampled token is an index of the row: for every
-- behaviour of the float operations, every temperature, top-k and top-p, and every state of the
-- generator.
pub sample-lt :
    (F : Floats) (s : Sampler) (row : List ℕ)
    → 0 < length row
    → length row ≤ 2 ^ 32
    → (sample F s row).0 < length row
unfolding sample
sample-lt F s row pos small = elim (Option-cases drawn) [
  | inl missed ↦ ground (arith, argmax-lt F row pos small, missed)
  | inr (t, hit) ↦ ground (
    arith,
    argmax-lt F row pos small,
    hit,
    pick-lt F (length row) target t choices (AllBelow-weighted F (length row) s row refl) small hit,
  )
]
  where
    choices : List (ℕ × ℕ)
    choices = (weighted F s row).0

    target : ℕ
    target = F.mul64 (next_f64 F s).0 (weighted F s row).1

    drawn : Option ℕ
    drawn = pick F target choices

-- Drawing changes the generator's state alone.
pub sample-config : (F : Floats) (s : Sampler) (row : List ℕ) → (sample F s row).1.config ≡ s.config
unfolding sample next_f64
sample-config F s row = ground arith
