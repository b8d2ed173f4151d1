-- ===== src/Gpt2/Steps.antt =====
-- The tensor library's operations that the model calls, and the model's steps: with the cache as
-- their state, and an error or a panic.
use hotbatch.Base.{ℕ, Option, none, some, List, Result, ok, err, panic}
use hotbatch.KvCache.{KvHandle, Tensors, SlabKvCache, read, write}
use hotbatch.Message.{ModelError, cache_failed, backend_failed}

-- Each operation gives a tensor, or `none` for the library's error.
pub record Candle (T : Tensors) : Type 1 where
  pub Embedding : Type 0
  pub LayerNorm : Type 0
  pub embed : Embedding → T.Tensor → Option T.Tensor
  pub embeddings : Embedding → T.Tensor
  pub normalize : LayerNorm → T.Tensor → Option T.Tensor
  -- `Tensor::new` of rows of numbers, of a scalar, and `from_slice` of bytes with a shape.
  pub of_rows : List (List ℕ) → Option T.Tensor
  pub of_scalar : ℕ → Option T.Tensor
  pub of_bytes : List ℕ → List ℕ → Option T.Tensor
  pub to_rows : T.Tensor → Option (List (List ℕ))
  pub add : T.Tensor → T.Tensor → Option T.Tensor
  pub broadcast_add : T.Tensor → T.Tensor → Option T.Tensor
  pub broadcast_as : List ℕ → T.Tensor → Option T.Tensor
  pub scale_by : ℕ → T.Tensor → Option T.Tensor
  pub matmul : T.Tensor → T.Tensor → Option T.Tensor
  pub t : T.Tensor → Option T.Tensor
  pub transpose : ℕ → ℕ → T.Tensor → Option T.Tensor
  pub contiguous : T.Tensor → Option T.Tensor
  pub reshape : List ℕ → T.Tensor → Option T.Tensor
  -- The last dimension is what is left.
  pub reshape_to : List ℕ → T.Tensor → Option T.Tensor
  pub flatten_from : ℕ → T.Tensor → Option T.Tensor
  pub squeeze : ℕ → T.Tensor → Option T.Tensor
  pub narrow : ℕ → ℕ → ℕ → T.Tensor → Option T.Tensor
  pub index : ℕ → T.Tensor → Option T.Tensor
  pub cat : List T.Tensor → ℕ → Option T.Tensor
  pub softmax_last_dim : T.Tensor → Option T.Tensor
  pub gelu : T.Tensor → Option T.Tensor
  pub where_cond : T.Tensor → T.Tensor → T.Tensor → Option T.Tensor

abbrev pub Step : Type 0 → Type 0 → Type 0
Step S A = S → Result ModelError A × S

infixl 5 ◌>>=◌ ◌>>◌
unfoldable pub ◌>>=◌ : {S A B : Type 0} → Step S A → (A → Step S B) → Step S B
◌>>=◌ m f s = elim (m s).0 [
  | ok a ↦ f a (m s).1
  | err e ↦ (err e, (m s).1)
  | panic ↦ (panic, (m s).1)
]

abbrev pub ◌>>◌ : {S B : Type 0} → Step S (Unit {0}) → Step S B → Step S B
m >> k = m >>= λ u. k

unfoldable pub return : {S A : Type 0} → A → Step S A
return a s = (ok a, s)

unfoldable pub fails : {S A : Type 0} → ModelError → Step S A
fails e s = (err e, s)

-- `?` on a result of the library, whose errors are not told apart.
unfoldable pub lifted : {S A : Type 0} → Option A → Step S A
lifted none s = (err (backend_failed 0), s)
lifted (some a) s = (ok a, s)

module _ (T : Tensors) where
  open T use {Tensor}

  -- `kv_cache.read` and `kv_cache.write`. A failed write changes nothing.
  unfoldable pub read_kv : KvHandle → ℕ → Step (SlabKvCache Tensor) (Tensor × Tensor)
  read_kv h layer c = elim (read T c h layer) [
    | ok pair ↦ (ok pair, c)
    | err e ↦ (err (cache_failed e), c)
    | panic ↦ (panic, c)
  ]

  unfoldable pub write_kv : KvHandle → ℕ → Tensor → Tensor → Step (SlabKvCache Tensor) (Unit {0})
  write_kv h layer k v c = elim (write T c h layer k v) [
    | ok c' ↦ (ok tt, c')
    | err e ↦ (err (cache_failed e), c)
    | panic ↦ (panic, c)
  ]
