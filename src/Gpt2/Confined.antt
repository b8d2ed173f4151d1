-- ===== src/Gpt2/Confined.antt =====
-- Every part of the two passes is tame.
use hotbatch.Base.{ℕ, suc, Bool, List, [], ◌∷◌}
use hotbatch.KvCache.{KvHandle, Tensors}
use hotbatch.Model.{DecodeInput}
use hotbatch.Gpt2.Steps.{Candle}
use hotbatch.Gpt2.Layers.{
  Conv1d, ConvLayout, in_out, out_in, matmul_as, matmul2d, project, conv_forward, causal_mask,
  masked_fill, Gpt2Mlp, mlp_forward, triple, quadruple, dims3, dims4, dim,
}
use hotbatch.Gpt2.Attention.{
  Gpt2Attention, prefill_attention, catenated, extended, store_row, decode_row, decode_rows,
  decode_attention, heads_of, attention_forward,
}
use hotbatch.Gpt2.Passes.{
  Gpt2Block, Gpt2Model, block_forward, blocks_forward, forward_t, prefill, forward,
}
use hotbatch.Gpt2.Tame.{IsTame, tame_rules, bind-IsTame, return-IsTame}

module _ {T : Tensors} (C : Candle T) where
  open T use {Tensor}

  matmul_as-IsTame : (layout : ConvLayout) (w xs : Tensor) → IsTame C (matmul_as C layout w xs)
  unfolding matmul_as
  matmul_as-IsTame in_out w xs = search tame_rules
  matmul_as-IsTame out_in w xs = search tame_rules

  matmul2d-IsTame : (conv : Conv1d C) (xs : Tensor) → IsTame C (matmul2d C conv xs)
  unfolding matmul2d
  matmul2d-IsTame conv xs = matmul_as-IsTame conv.layout conv.weight xs

  project-IsTame : (conv : Conv1d C) (xs : Tensor) (ds : List ℕ) → IsTame C (project C conv xs ds)
  unfolding project
  project-IsTame conv xs (a ∷ (b ∷ (c ∷ []))) = search (tame_rules, matmul2d-IsTame)
  project-IsTame conv xs [] = matmul2d-IsTame conv xs
  project-IsTame conv xs (a ∷ []) = matmul2d-IsTame conv xs
  project-IsTame conv xs (a ∷ (b ∷ [])) = matmul2d-IsTame conv xs
  project-IsTame conv xs (a ∷ (b ∷ (c ∷ (d ∷ ds)))) = matmul2d-IsTame conv xs

  conv_forward-IsTame : (conv : Conv1d C) (xs : Tensor) → IsTame C (conv_forward C conv xs)
  unfolding conv_forward
  conv_forward-IsTame conv xs = search (tame_rules, project-IsTame)

  causal_mask-IsTame : (size : ℕ) → IsTame C (causal_mask C size)
  unfolding causal_mask
  causal_mask-IsTame size = search tame_rules

  masked_fill-IsTame : (xs mask : Tensor) (value : ℕ) → IsTame C (masked_fill C xs mask value)
  unfolding masked_fill
  masked_fill-IsTame xs mask value = search tame_rules

  mlp_forward-IsTame : (mlp : Gpt2Mlp C) (xs : Tensor) → IsTame C (mlp_forward C mlp xs)
  unfolding mlp_forward
  mlp_forward-IsTame mlp xs = search (tame_rules, conv_forward-IsTame)

  triple-IsTame : (ds : List ℕ) → IsTame C (triple C ds)
  unfolding triple
  triple-IsTame (a ∷ (b ∷ (c ∷ []))) = search tame_rules
  triple-IsTame [] = search tame_rules
  triple-IsTame (a ∷ []) = search tame_rules
  triple-IsTame (a ∷ (b ∷ [])) = search tame_rules
  triple-IsTame (a ∷ (b ∷ (c ∷ (d ∷ ds)))) = search tame_rules

  quadruple-IsTame : (ds : List ℕ) → IsTame C (quadruple C ds)
  unfolding quadruple
  quadruple-IsTame (a ∷ (b ∷ (c ∷ (d ∷ [])))) = search tame_rules
  quadruple-IsTame [] = search tame_rules
  quadruple-IsTame (a ∷ []) = search tame_rules
  quadruple-IsTame (a ∷ (b ∷ [])) = search tame_rules
  quadruple-IsTame (a ∷ (b ∷ (c ∷ []))) = search tame_rules
  quadruple-IsTame (a ∷ (b ∷ (c ∷ (d ∷ (e ∷ ds))))) = search tame_rules

  dims3-IsTame : (xs : Tensor) → IsTame C (dims3 C xs)
  unfolding dims3
  dims3-IsTame xs = triple-IsTame _

  dims4-IsTame : (xs : Tensor) → IsTame C (dims4 C xs)
  unfolding dims4
  dims4-IsTame xs = quadruple-IsTame _

  dim-IsTame : (xs : Tensor) (axis : ℕ) → IsTame C (dim C xs axis)
  unfolding dim
  dim-IsTame xs axis = search tame_rules

  ruleset part_rules = (
    tame_rules, conv_forward-IsTame, causal_mask-IsTame, masked_fill-IsTame, mlp_forward-IsTame,
    dims3-IsTame, dims4-IsTame, dim-IsTame,
  )

  module _ (attn : Gpt2Attention C) where
    prefill_attention-IsTame :
        (query key value : Tensor) (layer : ℕ) (handles : List KvHandle)
        → IsTame C (prefill_attention C attn query key value layer handles)
    unfolding prefill_attention
    prefill_attention-IsTame query key value layer [] = search part_rules
    prefill_attention-IsTame query key value layer (h ∷ []) = search part_rules depth 24
    prefill_attention-IsTame query key value layer (h ∷ (g ∷ hs)) = search part_rules

    catenated-IsTame :
        (k v : Tensor) (past : Tensor × Tensor) → IsTame C (catenated C attn k v past)
    unfolding catenated
    catenated-IsTame k v past = search part_rules

    extended-IsTame : (k v : Tensor) (past : Tensor × Tensor) → IsTame C (extended C attn k v past)
    unfolding extended
    extended-IsTame k v past = search (part_rules, catenated-IsTame)

    store_row-IsTame :
        (key value : Tensor) (layer row : ℕ) (h : KvHandle)
        → IsTame C (store_row C attn key value layer row h)
    unfolding store_row
    store_row-IsTame key value layer row h = search (part_rules, extended-IsTame) depth 24

    decode_row-IsTame :
        (query key value : Tensor) (layer row : ℕ) (h : KvHandle)
        → IsTame C (decode_row C attn query key value layer row h)
    unfolding decode_row
    decode_row-IsTame query key value layer row h = search (part_rules, store_row-IsTame) depth 24

    decode_rows-IsTame :
        (query key value : Tensor) (layer row : ℕ) (handles : List KvHandle)
        → IsTame C (decode_rows C attn query key value layer row handles)
    unfolding decode_rows
    decode_rows-IsTame query key value layer row [] = search part_rules
    decode_rows-IsTame query key value layer row (h ∷ handles) =
        bind-IsTame C (decode_row-IsTame query key value layer row h) λ context.
          bind-IsTame C (decode_rows-IsTame query key value layer (suc row) handles)
            λ contexts. return-IsTame C (context ∷ contexts)

    decode_attention-IsTame :
        (query key value : Tensor) (layer : ℕ) (handles : List KvHandle)
        → IsTame C (decode_attention C attn query key value layer handles)
    unfolding decode_attention
    decode_attention-IsTame query key value layer handles =
        search (part_rules, decode_rows-IsTame) depth 24

    heads_of-IsTame :
        (qkv : Tensor) (start : ℕ) (shape : ℕ × ℕ × ℕ) → IsTame C (heads_of C attn qkv start shape)
    unfolding heads_of
    heads_of-IsTame qkv start shape = search part_rules

    attention_forward-IsTame :
        (xs : Tensor) (layer : ℕ) (handles : List KvHandle) (prefilling : Bool)
        → IsTame C (attention_forward C attn xs layer handles prefilling)
    unfolding attention_forward
    attention_forward-IsTame xs layer handles prefilling =
        search (part_rules, heads_of-IsTame, prefill_attention-IsTame, decode_attention-IsTame)
          depth 24

  block_forward-IsTame :
      (block : Gpt2Block C) (xs : Tensor) (layer : ℕ) (handles : List KvHandle) (prefilling : Bool)
      → IsTame C (block_forward C block xs layer handles prefilling)
  unfolding block_forward
  block_forward-IsTame block xs layer handles prefilling =
      search (part_rules, attention_forward-IsTame) depth 24

  blocks_forward-IsTame :
      (blocks : List (Gpt2Block C)) (xs : Tensor) (layer : ℕ) (handles : List KvHandle)
      (prefilling : Bool)
      → IsTame C (blocks_forward C blocks xs layer handles prefilling)
  unfolding blocks_forward
  blocks_forward-IsTame [] xs layer handles prefilling = search tame_rules
  blocks_forward-IsTame (block ∷ blocks) xs layer handles prefilling =
      bind-IsTame C (block_forward-IsTame block xs layer handles prefilling)
        λ ys. blocks_forward-IsTame blocks ys (suc layer) handles prefilling

  module _ (model : Gpt2Model C) where
    forward_t-IsTame :
        (ids positions : Tensor) (handles : List KvHandle) (prefilling : Bool)
        → IsTame C (forward_t C model ids positions handles prefilling)
    unfolding forward_t
    forward_t-IsTame ids positions handles prefilling =
        search (part_rules, blocks_forward-IsTame) depth 24

    prefill-IsTame :
        (prompt_tokens : List ℕ) (handle : KvHandle)
        → IsTame C (prefill C model prompt_tokens handle)
    unfolding prefill
    prefill-IsTame prompt_tokens handle = search (part_rules, forward_t-IsTame) depth 24

    forward-IsTame : (batch : List DecodeInput) → IsTame C (forward C model batch)
    unfolding forward
    forward-IsTame batch = search (part_rules, forward_t-IsTame) depth 24

    -- Both passes of GPT-2 are what the scheduler takes a backend's passes to be: for any tensor
    -- library and any weights, and whether a pass succeeds or fails half way, it changes the cache by
    -- successful writes alone; and on a well-formed cache it does not panic.
    pub passes-IsTame :
        (prompt_tokens : List ℕ) (handle : KvHandle) (batch : List DecodeInput)
        → IsTame C (prefill C model prompt_tokens handle) × IsTame C (forward C model batch)
    passes-IsTame prompt_tokens handle batch =
        (prefill-IsTame prompt_tokens handle, forward-IsTame batch)
