-- ===== src/Gpt2/Tame.antt =====
-- What the model's steps do to the cache.
use hotbatch.Base.{
  ℕ, ◌≡◌, inl, inr, Bool, true, false, Option, none, some, arith, if◌then◌else◌, Result-cases,
  panic,
}
use hotbatch.KvCache.{KvHandle, Tensors, SlabKvCache, read, write, empty_pair}
use hotbatch.KvCache.Invariant.{IsSlab}
use hotbatch.KvCache.Storage.{write_total}
use hotbatch.Message.{ModelError}
use hotbatch.Model.{Writes, here, next}
use hotbatch.Model.Frame.{Writes-IsSlab, Writes-trans}
use hotbatch.Gpt2.Steps.{Candle, ◌>>=◌, return, fails, lifted, read_kv, write_kv}
use hotbatch.Gpt2.Layers.{Kv}

module _ {T : Tensors} (C : Candle T) where
  open T use {Tensor}

  -- The step changes the cache by successful writes alone, whatever it returns, and does not panic on
  -- a well-formed one.
  pub record IsTame {A : Type 0} (m : Kv C A) : Type 0 where
    pub writes : (c : SlabKvCache Tensor) → Writes T c (m c).1
    pub defined : (c : SlabKvCache Tensor) → IsSlab T c → ¬ ((m c).0 ≡ panic)

  pub bind-IsTame :
      {A B : Type 0} {m : Kv C A} {f : A → Kv C B}
      → IsTame m
      → ((a : A) → IsTame (f a))
      → IsTame (m >>= f)
  unfolding ◌>>=◌
  bind-IsTame {m = m} {f = f} h k = record {
    writes = λ c. elim (Result-cases (m c).0) [
      | inl (a, e) ↦ rw (e, ◌>>=◌) (Writes-trans T (h.writes c) ((k a).writes (m c).1))
      | inr (inl (x, e)) ↦ rw (e, ◌>>=◌) (h.writes c)
      | inr (inr e) ↦ rw (e, ◌>>=◌) (h.writes c)
    ];
    defined = λ c s p. elim (Result-cases (m c).0) [
      | inl (a, e) ↦ (k a).defined (m c).1 (Writes-IsSlab T (h.writes c) s) (rw (e, ◌>>=◌) at p)
      | inr (inl (x, e)) ↦ absurd (ground (arith, p, e))
      | inr (inr e) ↦ h.defined c s e
    ];
  }

  pub lifted-IsTame : {A : Type 0} (o : Option A) → IsTame (lifted o)
  unfolding lifted
  lifted-IsTame none = record { writes = λ c. here; defined = λ c s e. absurd (ground arith) }
  lifted-IsTame (some a) = record { writes = λ c. here; defined = λ c s e. absurd (ground arith) }

  pub return-IsTame : {A : Type 0} (a : A) → IsTame (return a)
  unfolding return
  return-IsTame a = record { writes = λ c. here; defined = λ c s e. absurd (ground arith) }

  pub fails-IsTame : {A : Type 0} (e : ModelError) → IsTame (fails {A = A} e)
  unfolding fails
  fails-IsTame e = record { writes = λ c. here; defined = λ c s p. absurd (ground arith) }

  pub if-IsTame :
      {A : Type 0} (b : Bool) {m k : Kv C A} → IsTame m → IsTame k → IsTame (if b then m else k)
  if-IsTame true h j = h
  if-IsTame false h j = j

  read_defined : (c : SlabKvCache Tensor) (h : KvHandle) (layer : ℕ) → ¬ (read T c h layer ≡ panic)
  unfolding read empty_pair
  read_defined c h layer e = ground arith

  pub read_kv-IsTame : (h : KvHandle) (layer : ℕ) → IsTame (read_kv T h layer)
  unfolding read_kv
  read_kv-IsTame h layer = record {
    writes = λ c. elim (Result-cases (read T c h layer)) [
      | inl (pair, e) ↦ rw (e, read_kv) here
      | inr (inl (x, e)) ↦ rw (e, read_kv) here
      | inr (inr e) ↦ rw (e, read_kv) here
    ];
    defined = λ c s p. read_defined c h layer (ground (arith, p));
  }

  pub write_kv-IsTame : (h : KvHandle) (layer : ℕ) (k v : Tensor) → IsTame (write_kv T h layer k v)
  unfolding write_kv
  write_kv-IsTame h layer k v = record {
    writes = λ c. elim (Result-cases (write T c h layer k v)) [
      | inl (c', e) ↦ rw (e, write_kv) (next here h layer k v e)
      | inr (inl (x, e)) ↦ rw (e, write_kv) here
      | inr (inr e) ↦ rw (e, write_kv) here
    ];
    defined = λ c s p. elim (write_total T c h layer k v s) [
      | inl (stale, e) ↦ absurd (ground (arith, p, e))
      | inr (inl (_, over, e)) ↦ absurd (ground (arith, p, e))
      | inr (inr (inl (x, _, _, bad, e))) ↦ absurd (ground (arith, p, e))
      | inr (inr (inr (c', _, _, _, e))) ↦ absurd (ground (arith, p, e))
    ];
  }

pub ruleset tame_rules = (
  return-IsTame, fails-IsTame, lifted-IsTame, if-IsTame, bind-IsTame, read_kv-IsTame,
  write_kv-IsTame,
)
