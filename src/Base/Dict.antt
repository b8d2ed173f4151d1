-- ===== src/Base/Dict.antt =====
-- A hash map keyed by numbers, as an association list in which the first entry of a key counts.
use Prim.Native.Nat.{ℕ, ◌+◌, ◌≤◌}
use mathlib.Core.Path.{◌≡◌, refl}
use mathlib.Core.List.{List, [], ◌∷◌}
use mathlib.Core.Option.{Option, none, some}
use native.Mathlib.Omega.{arith}
use hotbatch.Base.Tests.{◌==◌, if◌then◌else◌}
use hotbatch.Base.Lists.{length, count}

module _ {ℓ} {V : Type ℓ} where
  abbrev pub lookup : ℕ → List (ℕ × V) → Option V
  lookup k [] = none
  lookup k ((j, v) ∷ m) = if j == k then some v else lookup k m

  abbrev pub remove : ℕ → List (ℕ × V) → List (ℕ × V)
  remove k [] = []
  remove k ((j, v) ∷ m) = if j == k then remove k m else (j, v) ∷ remove k m

  abbrev pub insert : ℕ → V → List (ℕ × V) → List (ℕ × V)
  insert k v m = (k, v) ∷ remove k m

  abbrev pub keys : List (ℕ × V) → List ℕ
  keys [] = []
  keys ((j, v) ∷ m) = j ∷ keys m

module _ {ℓ} {V : Type ℓ} where
  pub lookup-remove :
      (k j : ℕ) (m : List (ℕ × V)) → lookup j (remove k m) ≡ (if k == j then none else lookup j m)
  lookup-remove k j [] = ground arith
  lookup-remove k j ((i, v) ∷ m) = ground (arith, lookup-remove k j m)

  pub lookup-insert :
      (k j : ℕ) (v : V) (m : List (ℕ × V))
      → lookup j (insert k v m) ≡ (if k == j then some v else lookup j m)
  lookup-insert k j v m = ground (arith, lookup-remove k j m)

  pub count-keys-remove :
      (k j : ℕ) (m : List (ℕ × V))
      → count j (keys (remove k m)) ≡ (if k == j then 0 else count j (keys m))
  count-keys-remove k j [] = ground arith
  count-keys-remove k j ((i, v) ∷ m) = ground (arith, count-keys-remove k j m)

  pub length-remove : (k : ℕ) (m : List (ℕ × V)) → length (remove k m) + count k (keys m) ≡ length m
  length-remove k [] = omega arith
  length-remove k ((i, v) ∷ m) = ground (arith, length-remove k m)

  pub lookup-none : (k : ℕ) (m : List (ℕ × V)) → count k (keys m) ≡ 0 → lookup k m ≡ none
  lookup-none k [] h = refl
  lookup-none k ((i, v) ∷ m) h = ground (arith, lookup-none k m)

  pub lookup-some_count :
      (k : ℕ) (v : V) (m : List (ℕ × V)) → lookup k m ≡ some v → 1 ≤ count k (keys m)
  lookup-some_count k v [] h = ground arith
  lookup-some_count k v ((i, w) ∷ m) h = ground (arith, lookup-some_count k v m)
