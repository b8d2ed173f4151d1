-- ===== src/Gpt2/Inversion.antt =====
-- What the parts of a step did, if the step succeeded.
use hotbatch.Base.{
  ℕ, ◌≡◌, refl, ap, ◌∙◌, inl, inr, Bool, true, false, Option, none, some, arith, if◌then◌else◌,
  Result-cases, ok,
}
use hotbatch.KvCache.{KvHandle, Tensors, SlabKvCache, read, write}
use hotbatch.Message.{ModelError}
use hotbatch.Gpt2.Steps.{Step, ◌>>=◌, return, fails, lifted, read_kv, write_kv}

-- The step leaves the state alone.
pub record IsPure {S A : Type 0} (m : Step S A) : Type 0 where
  pub same : (s : S) → (m s).1 ≡ s

pub bind-IsPure :
    {S A B : Type 0} {m : Step S A} {f : A → Step S B}
    → IsPure m
    → ((a : A) → IsPure (f a))
    → IsPure (m >>= f)
unfolding ◌>>=◌
bind-IsPure {m = m} {f = f} h k = record {
  same = λ s. elim (Result-cases (m s).0) [
    | inl (a, e) ↦ rw (e, ◌>>=◌) ((k a).same (m s).1 ∙ h.same s)
    | inr (inl (x, e)) ↦ rw (e, ◌>>=◌) (h.same s)
    | inr (inr e) ↦ rw (e, ◌>>=◌) (h.same s)
  ];
}

pub lifted-IsPure : {S A : Type 0} (o : Option A) → IsPure (lifted {S = S} o)
unfolding lifted
lifted-IsPure none = record { same = λ s. refl }
lifted-IsPure (some a) = record { same = λ s. refl }

pub return-IsPure : {S A : Type 0} (a : A) → IsPure (return {S = S} a)
unfolding return
return-IsPure a = record { same = λ s. refl }

pub fails-IsPure : {S A : Type 0} (e : ModelError) → IsPure (fails {S = S} {A = A} e)
unfolding fails
fails-IsPure e = record { same = λ s. refl }

pub if-IsPure :
    {S A : Type 0} (b : Bool) {m k : Step S A} → IsPure m → IsPure k → IsPure (if b then m else k)
if-IsPure true h j = h
if-IsPure false h j = j

pub ruleset pure_rules = (lifted-IsPure, return-IsPure, fails-IsPure, if-IsPure, bind-IsPure)

-- A bind that succeeded: both parts did, one after the other.
pub bind-ok :
    {S A B : Type 0} (m : Step S A) (f : A → Step S B) (s : S) (b : B)
    → ((m >>= f) s).0 ≡ ok b
    → (a : A) × ((m s).0 ≡ ok a) × ((f a (m s).1).0 ≡ ok b) × (((m >>= f) s).1 ≡ (f a (m s).1).1)
unfolding ◌>>=◌
bind-ok m f s b e = elim (Result-cases (m s).0) [
  | inl (a, h) ↦ (a, h, rw (h, ◌>>=◌) at e, rw (h, ◌>>=◌) refl)
  | inr (inl (x, h)) ↦ absurd (ground (arith, e, h))
  | inr (inr h) ↦ absurd (ground (arith, e, h))
]

-- The same when the first part is pure.
pub pure-ok :
    {S A B : Type 0} (m : Step S A) (f : A → Step S B) (s : S) (b : B)
    → IsPure m
    → ((m >>= f) s).0 ≡ ok b
    → (a : A) × ((m s).0 ≡ ok a) × ((f a s).0 ≡ ok b) × (((m >>= f) s).1 ≡ (f a s).1)
pure-ok m f s b pure e =
    let (a, first, second, state) = bind-ok m f s b e in
    (a, first, rw (pure.same s) at second, state ∙ ap (λ x. (f a x).1) (pure.same s))

-- The same when all that follows is pure.
pub tail-ok :
    {S A B : Type 0} (m : Step S A) (f : A → Step S B) (s : S) (b : B)
    → ((a : A) → IsPure (f a))
    → ((m >>= f) s).0 ≡ ok b
    → (a : A) × ((m s).0 ≡ ok a) × (((m >>= f) s).1 ≡ (m s).1)
tail-ok m f s b pure e =
    let (a, first, second, state) = bind-ok m f s b e in (a, first, state ∙ (pure a).same (m s).1)

pub lifted-ok : {S A : Type 0} (o : Option A) (s : S) (a : A) → (lifted o s).0 ≡ ok a → o ≡ some a
unfolding lifted
lifted-ok none s a e = absurd (ground (arith, e))
lifted-ok (some x) s a e = ground (arith, e)

module _ (T : Tensors) where
  open T use {Tensor}

  pub read_kv-ok :
      (h : KvHandle) (layer : ℕ) (c : SlabKvCache Tensor) (pair : Tensor × Tensor)
      → (read_kv T h layer c).0 ≡ ok pair
      → read T c h layer ≡ ok pair
  unfolding read_kv
  read_kv-ok h layer c pair e = elim (Result-cases (read T c h layer)) [
    | inl (p, r) ↦ ground (arith, e, r)
    | inr (inl (x, r)) ↦ absurd (ground (arith, e, r))
    | inr (inr r) ↦ absurd (ground (arith, e, r))
  ]

  pub read_kv-IsPure : (h : KvHandle) (layer : ℕ) → IsPure (read_kv T h layer)
  unfolding read_kv
  read_kv-IsPure h layer = record {
    same = λ c. elim (Result-cases (read T c h layer)) [
      | inl (p, r) ↦ rw (r, read_kv) refl
      | inr (inl (x, r)) ↦ rw (r, read_kv) refl
      | inr (inr r) ↦ rw (r, read_kv) refl
    ];
  }

  pub write_kv-ok :
      (h : KvHandle) (layer : ℕ) (k v : Tensor) (c : SlabKvCache Tensor) (u : Unit {0})
      → (write_kv T h layer k v c).0 ≡ ok u
      → write T c h layer k v ≡ ok (write_kv T h layer k v c).1
  unfolding write_kv
  write_kv-ok h layer k v c u e = elim (Result-cases (write T c h layer k v)) [
    | inl (c', r) ↦ rw (r, write_kv) refl
    | inr (inl (x, r)) ↦ absurd (ground (arith, e, r))
    | inr (inr r) ↦ absurd (ground (arith, e, r))
  ]
