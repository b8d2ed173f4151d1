-- ===== src/Gpt2/Passes.antt =====
-- `Gpt2Block::forward`, `Gpt2Model::forward_t` and the two passes.
use hotbatch.Base.{
  ℕ, suc, ◌*◌, ◌-◌, ◌%◌, ◌^◌, Option, none, some, List, [], ◌∷◌, map, ◌==◌, if◌then◌else◌, is_empty,
  length, take, range_from, Bool, true, false,
}
use hotbatch.KvCache.{KvHandle, Tensors}
use hotbatch.Model.{DecodeInput, DecodeLogits}
use hotbatch.Gpt2.Steps.{Candle, ◌>>=◌, return, lifted}
use hotbatch.Gpt2.Layers.{Kv, Gpt2Mlp, mlp_forward, dims3}
use hotbatch.Gpt2.Attention.{Gpt2Attention, attention_forward}

pub record Gpt2Config : Type 0 where
  pub vocab_size : ℕ
  pub n_positions : Option ℕ
  pub n_ctx : Option ℕ
  pub n_embd : ℕ
  pub n_layer : ℕ
  pub n_head : ℕ
  pub layer_norm_epsilon : ℕ

unfoldable pub max_positions : Gpt2Config → ℕ
max_positions config = elim config.n_positions [
  | some n ↦ n
  | none ↦ elim config.n_ctx [ some n ↦ n | none ↦ 1024 ]
]

module _ {T : Tensors} (C : Candle T) where
  open T use {Tensor}
  open C use {
    Embedding, LayerNorm, embed, embeddings, normalize, of_rows, to_rows, add, broadcast_add,
    matmul, reshape, squeeze,
  }

  pub record Gpt2Block : Type 0 where
    pub ln_1 : LayerNorm
    pub attn : Gpt2Attention C
    pub ln_2 : LayerNorm
    pub mlp : Gpt2Mlp C

  pub record Gpt2Model : Type 0 where
    pub config : Gpt2Config
    pub head_dim : ℕ
    pub wte : Embedding
    pub wpe : Embedding
    pub blocks : List Gpt2Block
    pub ln_f : LayerNorm

  unfoldable pub block_forward : Gpt2Block → Tensor → ℕ → List KvHandle → Bool → Kv C Tensor
  unfolding attention_forward mlp_forward
  block_forward block xs layer_idx handles prefill = do
    normal ← lifted (normalize block.ln_1 xs)
    attended ← attention_forward C block.attn normal layer_idx handles prefill
    ys ← lifted (add attended xs)
    normal' ← lifted (normalize block.ln_2 ys)
    made ← mlp_forward C block.mlp normal'
    lifted (add made ys)

  -- `for (layer_idx, block)` from a layer on.
  unfoldable pub blocks_forward : List Gpt2Block → Tensor → ℕ → List KvHandle → Bool → Kv C Tensor
  unfolding block_forward
  blocks_forward [] xs layer_idx handles prefill = return xs
  blocks_forward (block ∷ blocks) xs layer_idx handles prefill =
      block_forward block xs layer_idx handles prefill >>= λ ys.
      blocks_forward blocks ys (suc layer_idx) handles prefill

  module _ (model : Gpt2Model) where
    -- What the cache is made for: layers, heads, and the size of a head.
    unfoldable pub kv_shape : ℕ × ℕ × ℕ
    kv_shape = (model.config.n_layer, model.config.n_head, model.head_dim)

    unfoldable pub forward_t : Tensor → Tensor → List KvHandle → Bool → Kv C Tensor
    unfolding blocks_forward dims3
    forward_t input_ids position_ids handles prefill = do
      token_emb ← lifted (embed model.wte input_ids)
      pos_emb ← lifted (embed model.wpe position_ids)
      xs ← lifted (broadcast_add token_emb pos_emb)
      ys ← blocks_forward model.blocks xs 0 handles prefill
      zs ← lifted (normalize model.ln_f ys)
      shape ← dims3 C zs
      flat ← lifted (reshape (shape.0 * shape.1 ∷ shape.2 ∷ []) zs)
      weights ← lifted (C.t (embeddings model.wte))
      product ← lifted (matmul flat weights)
      logits ← lifted (reshape (shape.0 ∷ shape.1 ∷ model.config.vocab_size ∷ []) product)
      (if prefill then return logits else lifted (squeeze 1 logits))

    -- The last token of the prompt is left to the first decode step.
    unfoldable pub prefill : List ℕ → KvHandle → Kv C (Unit {0})
    unfolding forward_t
    prefill prompt_tokens handle =
        let cached_len = length prompt_tokens - 1 in
        if cached_len == 0
        then return tt
        else lifted (of_rows (take cached_len prompt_tokens ∷ [])) >>= λ input_ids.
            lifted (of_rows (range_from 0 (cached_len % 2 ^ 32) ∷ [])) >>= λ position_ids.
            forward_t input_ids position_ids (handle ∷ []) true >>= λ logits. return tt

    unfoldable pub forward : List DecodeInput → Kv C DecodeLogits
    unfolding forward_t
    forward batch =
        if is_empty batch
        then return []
        else lifted (of_rows (map (λ (row : DecodeInput). row.last_token ∷ []) batch))
          >>= λ input_ids.
              lifted (of_rows (map (λ (row : DecodeInput). row.position % 2 ^ 32 ∷ []) batch))
              >>= λ position_ids.
                  forward_t input_ids position_ids
                    (map (λ (row : DecodeInput). row.kv_handle) batch) false
                  >>= λ logits. lifted (to_rows logits)
