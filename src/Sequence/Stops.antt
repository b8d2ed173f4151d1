-- ===== src/Sequence/Stops.antt =====
-- How the end of the generated tokens meets the stop sequences: the two searches of sequence.rs.
use hotbatch.Base.{
  ℕ, zero, suc, ◌-◌, Bool, not, ◌&&◌, Option, none, some, List, [], ◌∷◌, map, min, max, leb,
  if◌then◌else◌, length, take, drop, is_empty, list_eq, retain,
}

-- `iter().max()`
abbrev pub max_of : List ℕ → Option ℕ
max_of [] = none
max_of (x ∷ xs) = elim (max_of xs) [ none ↦ some x | some y ↦ some (max x y) ]

-- `unwrap_or(d)`
abbrev pub unwrap_or {ℓ} : {A : Type ℓ} → Option A → A → A
unwrap_or none d = d
unwrap_or (some a) d = a

-- `generated[generated.len() - k..]`, where `k` is at most the length.
abbrev pub last_tokens : ℕ → List ℕ → List ℕ
last_tokens k generated = drop (length generated - k) generated

-- The test of `matched_stop_len`: a nonempty stop sequence with which the output ends.
abbrev pub ends_with : List ℕ → List ℕ → Bool
ends_with generated stop =
    not (is_empty stop)
    && (leb (length stop) (length generated) && list_eq (last_tokens (length stop) generated) stop)

unfoldable pub matched_stop_len : List ℕ → List (List ℕ) → Option ℕ
matched_stop_len generated stops = max_of (map length (retain (ends_with generated) stops))

-- `(1..=n).rev().find(…)`: the largest length, at most `n`, of a prefix of `stop` with which the
-- output ends.
unfoldable pub find_prefix : List ℕ → List ℕ → ℕ → Option ℕ
find_prefix generated stop zero = none
find_prefix generated stop (suc n) =
    if list_eq (last_tokens (suc n) generated) (take (suc n) stop)
    then some (suc n)
    else find_prefix generated stop n

unfoldable pub longest_prefix : List ℕ → List ℕ → ℕ
longest_prefix generated stop =
    unwrap_or (find_prefix generated stop (min (length stop) (length generated))) 0

unfoldable pub pending_stop_prefix_len : List ℕ → List (List ℕ) → ℕ
pending_stop_prefix_len generated stops =
    unwrap_or (max_of (map (longest_prefix generated) (retain (λ stop. not (is_empty stop)) stops)))
      0
