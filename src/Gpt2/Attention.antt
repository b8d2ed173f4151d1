-- ===== src/Gpt2/Attention.antt =====
-- `Gpt2Attention::forward`: the attention over a prompt and over one token of each sequence.
use hotbatch.Base.{ℕ, suc, ◌*◌, List, [], ◌∷◌, ◌==◌, if◌then◌else◌, length, Bool}
use hotbatch.KvCache.{KvHandle, Tensors}
use hotbatch.Message.{not_one_sequence, not_one_token, batch_mismatch}
use hotbatch.Gpt2.Steps.{Candle, ◌>>=◌, ◌>>◌, return, fails, lifted, read_kv, write_kv}
use hotbatch.Gpt2.Layers.{
  Kv, Conv1d, conv_forward, causal_mask, masked_fill, negative_infinity, dims3, dims4, dim,
}

module _ {T : Tensors} (C : Candle T) where
  open T use {Tensor, dims}
  open C use {
    scale_by, matmul, transpose, contiguous, reshape, reshape_to, flatten_from, narrow, index, cat,
    softmax_last_dim, broadcast_as,
  }

  pub record Gpt2Attention : Type 0 where
    pub c_attn : Conv1d C
    pub c_proj : Conv1d C
    pub n_head : ℕ
    pub head_dim : ℕ
    pub scale : ℕ

  module _ (attn : Gpt2Attention) where
    -- The context of the one sequence; its keys and values are written from the first token on.
    unfoldable pub prefill_attention : Tensor → Tensor → Tensor → ℕ → List KvHandle → Kv C Tensor
    unfolding causal_mask masked_fill dims4 write_kv
    prefill_attention query key value layer_idx (handle ∷ []) = do
      shape ← dims4 C query
      key_t ← lifted (transpose 2 3 key)
      product ← lifted (matmul query key_t)
      raw ← lifted (scale_by attn.scale product)
      mask ← causal_mask C shape.2
      wide ← lifted (broadcast_as (dims raw) mask)
      scores ← masked_fill C raw wide negative_infinity
      weights ← lifted (softmax_last_dim scores)
      mixed ← lifted (matmul weights value)
      turned ← lifted (transpose 1 2 mixed)
      flat ← lifted (flatten_from 2 turned)
      context ← lifted (contiguous flat)
      k_row ← lifted (index 0 key)
      k_store ← lifted (contiguous k_row)
      v_row ← lifted (index 0 value)
      v_store ← lifted (contiguous v_row)
      write_kv T handle layer_idx k_store v_store
      return context
    prefill_attention query key value layer_idx handles = fails (not_one_sequence (length handles))

    -- The stored tokens with the new one behind them, or the new one alone.
    unfoldable pub catenated : Tensor → Tensor → Tensor × Tensor → Kv C (Tensor × Tensor)
    catenated k_current v_current past = do
      k_total ← lifted (cat (past.0 ∷ k_current ∷ []) 1)
      v_total ← lifted (cat (past.1 ∷ v_current ∷ []) 1)
      return (k_total, v_total)

    unfoldable pub extended : Tensor → Tensor → Tensor × Tensor → Kv C (Tensor × Tensor)
    unfolding dim catenated
    extended k_current v_current past = do
      cached ← dim C past.0 1
      (if cached == 0 then return (k_current, v_current) else catenated k_current v_current past)

    -- The loop's body for one row: what is stored for it afterwards, and its context.
    unfoldable pub store_row : Tensor → Tensor → ℕ → ℕ → KvHandle → Kv C (Tensor × Tensor)
    unfolding read_kv write_kv extended
    store_row key value layer_idx row handle = do
      k_row ← lifted (index row key)
      k_current ← lifted (contiguous k_row)
      v_row ← lifted (index row value)
      v_current ← lifted (contiguous v_row)
      past ← read_kv T handle layer_idx
      total ← extended k_current v_current past
      write_kv T handle layer_idx total.0 total.1
      return total

    unfoldable pub decode_row : Tensor → Tensor → Tensor → ℕ → ℕ → KvHandle → Kv C Tensor
    unfolding store_row
    decode_row query key value layer_idx row handle = do
      q_row ← lifted (index row query)
      q ← lifted (contiguous q_row)
      total ← store_row key value layer_idx row handle
      k_t ← lifted (transpose 1 2 total.0)
      product ← lifted (matmul q k_t)
      scores ← lifted (scale_by attn.scale product)
      weights ← lifted (softmax_last_dim scores)
      mixed ← lifted (matmul weights total.1)
      turned ← lifted (transpose 0 1 mixed)
      flat ← lifted (flatten_from 1 turned)
      lifted (contiguous flat)

    unfoldable pub decode_rows :
        Tensor → Tensor → Tensor → ℕ → ℕ → List KvHandle → Kv C (List Tensor)
    unfolding decode_row
    decode_rows query key value layer_idx row [] = return []
    decode_rows query key value layer_idx row (handle ∷ handles) =
        decode_row query key value layer_idx row handle >>= λ context.
        decode_rows query key value layer_idx (suc row) handles >>= λ contexts.
        return (context ∷ contexts)

    unfoldable pub decode_attention : Tensor → Tensor → Tensor → ℕ → List KvHandle → Kv C Tensor
    unfolding decode_rows dims4
    decode_attention query key value layer_idx handles = do
      shape ← dims4 C query
      (if shape.2 == 1 then return tt else fails (not_one_token shape.2))
      (if shape.0 == length handles
          then return tt
          else fails (batch_mismatch shape.0 (length handles)))
      contexts ← decode_rows query key value layer_idx 0 handles
      joined ← lifted (cat contexts 0)
      lifted (reshape_to (shape.0 ∷ 1 ∷ []) joined)

    -- A third of the projection, as [batch, heads, tokens, head_dim].
    unfoldable pub heads_of : Tensor → ℕ → ℕ × ℕ × ℕ → Kv C Tensor
    heads_of qkv start shape = do
      part ← lifted (narrow 2 start shape.2 qkv)
      split ← lifted (reshape (shape.0 ∷ shape.1 ∷ attn.n_head ∷ attn.head_dim ∷ []) part)
      turned ← lifted (transpose 1 2 split)
      lifted (contiguous turned)

    unfoldable pub attention_forward : Tensor → ℕ → List KvHandle → Bool → Kv C Tensor
    unfolding heads_of prefill_attention decode_attention conv_forward dims3
    attention_forward xs layer_idx handles prefill = do
      shape ← dims3 C xs
      qkv ← conv_forward C attn.c_attn xs
      query ← heads_of qkv 0 shape
      key ← heads_of qkv shape.2 shape
      value ← heads_of qkv (2 * shape.2) shape
      context ←
          (if prefill
            then prefill_attention query key value layer_idx handles
            else decode_attention query key value layer_idx handles)
      conv_forward C attn.c_proj context
