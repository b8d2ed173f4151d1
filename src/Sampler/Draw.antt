-- ===== src/Sampler/Draw.antt =====
-- `LogitRow::argmax`, `Sampler::sample` and `Sampler::next_f64`. A float is its bit pattern, and the
-- machine's operations on floats are a parameter.
use Prim.Native.Nat.{bit_xor}
use hotbatch.Base.{
  ℕ, suc, ◌*◌, ◌/◌, ◌%◌, ◌^◌, Bool, ◌||◌, Option, none, some, List, [], ◌∷◌, map, max,
  if◌then◌else◌, take, is_empty,
}
use hotbatch.Base.Checked.{word}
use hotbatch.Sampler.Defs.{Sampler}

-- `le`, `lt` are `<=`, `<`; `total_le a b` says that `total_cmp` does not put `a` after `b`.
pub record Floats : Type 0 where
  pub is_finite32 : ℕ → Bool
  pub le32 : ℕ → ℕ → Bool
  pub lt32 : ℕ → ℕ → Bool
  pub total_le32 : ℕ → ℕ → Bool
  pub max32 : ℕ → ℕ → ℕ
  pub clamp32 : ℕ → ℕ → ℕ → ℕ
  pub sub32 : ℕ → ℕ → ℕ
  pub div32 : ℕ → ℕ → ℕ
  pub widen : ℕ → ℕ
  pub le64 : ℕ → ℕ → Bool
  pub lt64 : ℕ → ℕ → Bool
  pub total_le64 : ℕ → ℕ → Bool
  pub exp64 : ℕ → ℕ
  pub add64 : ℕ → ℕ → ℕ
  pub sub64 : ℕ → ℕ → ℕ
  pub mul64 : ℕ → ℕ → ℕ
  pub div64 : ℕ → ℕ → ℕ
  pub sum64 : List ℕ → ℕ
  pub of_u64 : ℕ → ℕ

-- The literals of the source: f32::EPSILON, f32::NEG_INFINITY, 0.001 and 0.999 and 1.0 as f32, and
-- 2^53 as f64.
abbrev epsilon : ℕ
epsilon = 0x3400_0000

abbrev neg_infinity : ℕ
neg_infinity = 0xff80_0000

abbrev milli : ℕ
milli = 0x3a83_126f

abbrev almost_one : ℕ
almost_one = 0x3f7f_be77

abbrev one : ℕ
one = 0x3f80_0000

abbrev two_53 : ℕ
two_53 = 0x4340_0000_0000_0000

-- `index as u32`
abbrev pub as_u32 : ℕ → ℕ
as_u32 i = i % 2 ^ 32

-- `enumerate()` from an index on.
abbrev pub enumerate : ℕ → List ℕ → List (ℕ × ℕ)
enumerate i [] = []
enumerate i (v ∷ vs) = (i, v) ∷ enumerate (suc i) vs

-- The stable sort of `sort_by(|a, b| b.1.total_cmp(&a.1))`, largest first.
unfoldable pub place : (ℕ → ℕ → Bool) → ℕ × ℕ → List (ℕ × ℕ) → List (ℕ × ℕ)
place total_le x [] = x ∷ []
place total_le x (y ∷ ys) = if total_le y.1 x.1 then x ∷ (y ∷ ys) else y ∷ place total_le x ys

unfoldable pub sort_down : (ℕ → ℕ → Bool) → List (ℕ × ℕ) → List (ℕ × ℕ)
unfolding place
sort_down total_le [] = []
sort_down total_le (x ∷ xs) = place total_le x (sort_down total_le xs)

-- `candidates.truncate(top_k.max(1))`
unfoldable pub truncate_top_k : Option ℕ → List (ℕ × ℕ) → List (ℕ × ℕ)
truncate_top_k none candidates = candidates
truncate_top_k (some k) candidates = take (max k 1) candidates

abbrev pub first_value : List (ℕ × ℕ) → ℕ
first_value [] = 0
first_value (c ∷ cs) = c.1

module _ (F : Floats) where
  open F use {
    le32, lt32, total_le32, max32, clamp32, sub32, div32, widen, le64, lt64, total_le64, exp64,
    add64, sub64, mul64, div64, sum64, of_u64,
  }

  unfoldable pub argmax_from : List ℕ → ℕ → ℕ → ℕ → ℕ
  argmax_from [] index best_index best_value = best_index
  argmax_from (v ∷ vs) index best_index best_value =
      argmax_from vs (suc index) (if lt32 best_value v then index else best_index)
        (if lt32 best_value v then v else best_value)

  unfoldable pub argmax : List ℕ → ℕ
  unfolding argmax_from
  argmax row = as_u32 (argmax_from row 0 0 neg_infinity)

  unfoldable pub weigh : ℕ → ℕ → List (ℕ × ℕ) → List (ℕ × ℕ)
  weigh temperature max_logit [] = []
  weigh temperature max_logit ((t, logit) ∷ cs) =
      (t, exp64 (widen (div32 (sub32 logit max_logit) temperature)))
      ∷ weigh temperature max_logit cs

  -- `total += weight` over the candidates.
  unfoldable pub total_from : ℕ → List (ℕ × ℕ) → ℕ
  total_from total [] = total
  total_from total (c ∷ cs) = total_from (add64 total c.1) cs

  -- The nucleus loop of `top_p`.
  unfoldable pub nucleus : ℕ → ℕ → ℕ → List (ℕ × ℕ) → List (ℕ × ℕ)
  nucleus total threshold cumulative [] = []
  nucleus total threshold cumulative (c ∷ cs) =
      let cumulative' = add64 cumulative (if lt64 0 total then div64 c.1 total else 0) in
      let rest = nucleus total threshold cumulative' cs in
      if le64 threshold cumulative' then c ∷ [] else c ∷ rest

  -- The draw: the token whose weight takes the target below it, if any.
  unfoldable pub pick : ℕ → List (ℕ × ℕ) → Option ℕ
  pick target [] = none
  pick target (c ∷ cs) =
      let rest = pick (sub64 target c.1) cs in if le64 target c.1 then some (as_u32 c.0) else rest

  unfoldable pub next_f64 : Sampler → ℕ × Sampler
  next_f64 s =
      let a = bit_xor s.rng_state (s.rng_state * 2 ^ 13 % word) in
      let b = bit_xor a (a / 2 ^ 7) in
      let c = bit_xor b (b * 2 ^ 17 % word) in
      (div64 (of_u64 (c / 2 ^ 11)) two_53, record s { rng_state = c })

  -- The candidates with their weights, largest first, and the total that the draw uses.
  unfoldable pub weighted : Sampler → List ℕ → List (ℕ × ℕ) × ℕ
  unfolding sort_down truncate_top_k weigh total_from nucleus
  weighted s row =
      let candidates = truncate_top_k s.top_k (sort_down total_le32 (enumerate 0 row)) in
      let raw = weigh (max32 s.temperature milli) (first_value candidates) candidates in
      let total = total_from 0 raw in
      let sorted = sort_down total_le64 raw in
      let kept = nucleus total (widen (clamp32 s.top_p milli one)) 0 sorted in
      if lt32 s.top_p almost_one then (kept, sum64 (map (λ c. c.1) kept)) else (sorted, total)

  unfoldable pub sample : Sampler → List ℕ → ℕ × Sampler
  sample s row =
      if le32 s.temperature epsilon
      then (argmax row, s)
      else let (choices, total) = weighted s row in
        if is_empty choices || le64 total 0
        then (argmax row, s)
        else let (unit, s') = next_f64 s in
          elim (pick (mul64 unit total) choices) [ some t ↦ (t, s') | none ↦ (argmax row, s') ]
