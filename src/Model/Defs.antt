-- ===== src/Model/Defs.antt =====
-- Batches, logits, and the two passes of `SmallTransformer` with their guards.
use hotbatch.Base.{
  ℕ, zero, ◌≡◌, Option, none, some, List, [], ◌∷◌, ltb, leb, if◌then◌else◌, length, get_elem?, ok,
}
use hotbatch.KvCache.{KvHandle, Tensors, SlabKvCache, write}
use hotbatch.Message.{ModelError, prompt_over_capacity, position_over_capacity}

pub record DecodeInput : Type 0 where
  pub seq_id : ℕ
  pub kv_handle : KvHandle
  pub last_token : ℕ
  pub position : ℕ
  pub prompt_hash : ℕ
  pub seed : ℕ

-- `DecodeBatch::dim`; a batch is the list of its rows.
unfoldable pub dim : List DecodeInput → ℕ → ℕ
dim rows zero = length rows
dim rows _ = 1

-- A row of logits is the list of its floats.
abbrev pub DecodeLogits : Type 0
DecodeLogits = List (List ℕ)

-- `none` is the error "logit row out of range".
unfoldable pub row : DecodeLogits → ℕ → Option (List ℕ)
row logits index = get_elem? logits index

-- What a pass returns: a value or an error.
pub data Pass {ℓ} (A : Type ℓ) : Type ℓ where
  passed : A → Pass A
  failed : ModelError → Pass A

module _ (T : Tensors) where
  open T use {Tensor}

  -- The cache after some successful writes.
  pub data Writes (c : SlabKvCache Tensor) : SlabKvCache Tensor → Type 0 where
    here : Writes c c
    next :
        {d e : SlabKvCache Tensor}
        → Writes c d
        → (h : KvHandle) (layer : ℕ) (k v : Tensor) → write T d h layer k v ≡ ok e
        → Writes c e

  -- A backend's two passes (`Gpt2Model` and `ScriptedModel`): each returns its result and the cache
  -- after it, also where it fails half way. They touch the cache through `write` and `read` alone.
  pub record Backend : Type 0 where
    pub max_positions : ℕ
    pub prefill_pass : List ℕ → KvHandle → SlabKvCache Tensor → Pass (Unit {0}) × SlabKvCache Tensor
    pub forward_pass :
        List DecodeInput → SlabKvCache Tensor → Pass DecodeLogits × SlabKvCache Tensor
    pub prefill_writes :
        (prompt : List ℕ) (h : KvHandle) (c : SlabKvCache Tensor)
        → Writes c (prefill_pass prompt h c).1
    pub forward_writes :
        (batch : List DecodeInput) (c : SlabKvCache Tensor) → Writes c (forward_pass batch c).1

-- `iter().find(|input| input.position >= max_positions)`
unfoldable pub first_over : ℕ → List DecodeInput → Option DecodeInput
first_over limit [] = none
first_over limit (input ∷ inputs) =
    if leb limit input.position then some input else first_over limit inputs

module _ {T : Tensors} (B : Backend T) where
  open T use {Tensor}
  open B use {max_positions, prefill_pass, forward_pass}

  unfoldable pub prefill :
      List ℕ → KvHandle → SlabKvCache Tensor → Pass (Unit {0}) × SlabKvCache Tensor
  prefill prompt h c =
      if ltb max_positions (length prompt)
      then (failed (prompt_over_capacity (length prompt) max_positions), c)
      else prefill_pass prompt h c

  unfoldable pub forward :
      List DecodeInput → SlabKvCache Tensor → Pass DecodeLogits × SlabKvCache Tensor
  unfolding first_over
  forward batch c = elim (first_over max_positions batch) [
    | some input ↦ (failed (position_over_capacity input.position max_positions input.seq_id), c)
    | none ↦ forward_pass batch c
  ]
