-- ===== src/Gpt2/Layers.antt =====
-- `Conv1D::forward`, the shapes, the mask of the attention and `Gpt2Mlp::forward`.
use hotbatch.Base.{ℕ, ◌*◌, List, [], ◌∷◌, ◌++◌, map, ltb, if◌then◌else◌, get_elem?, range_from}
use hotbatch.KvCache.{Tensors, SlabKvCache}
use hotbatch.Message.{backend_failed}
use hotbatch.Gpt2.Steps.{Candle, Step, ◌>>=◌, return, fails, lifted}

pub data ConvLayout : Type 0 where
  in_out out_in : ConvLayout

-- Of the f32 negative infinity.
abbrev pub negative_infinity : ℕ
negative_infinity = 0xff80_0000

module _ {T : Tensors} (C : Candle T) where
  open T use {Tensor, dims}
  open C use {
    add, scale_by, matmul, transpose, contiguous, reshape, reshape_to, flatten_from, narrow, index,
    cat, softmax_last_dim, where_cond, of_bytes, of_scalar, broadcast_as, broadcast_add,
  }

  pub record Conv1d : Type 0 where
    pub weight : Tensor
    pub bias : Tensor
    pub layout : ConvLayout
    pub out_dim : ℕ

  abbrev pub Kv : Type 0 → Type 0
  Kv A = Step (SlabKvCache Tensor) A

  unfoldable pub matmul_as : ConvLayout → Tensor → Tensor → Kv Tensor
  matmul_as in_out weight xs = lifted (matmul xs weight)
  matmul_as out_in weight xs = do turned ← lifted (C.t weight); lifted (matmul xs turned)

  unfoldable pub matmul2d : Conv1d → Tensor → Kv Tensor
  unfolding matmul_as
  matmul2d conv xs = matmul_as conv.layout conv.weight xs

  -- `match xs.dims()`
  unfoldable pub project : Conv1d → Tensor → List ℕ → Kv Tensor
  unfolding matmul2d
  project conv xs (batch ∷ (seq_len ∷ (in_dim ∷ []))) = do
    flat ← lifted (reshape (batch * seq_len ∷ in_dim ∷ []) xs)
    projected ← matmul2d conv flat
    lifted (reshape (batch ∷ seq_len ∷ conv.out_dim ∷ []) projected)
  project conv xs _ = matmul2d conv xs

  unfoldable pub conv_forward : Conv1d → Tensor → Kv Tensor
  unfolding project
  conv_forward conv xs = do
    projected ← project conv xs (dims xs)
    lifted (broadcast_add projected conv.bias)

  -- Row `i` masks the columns after it.
  unfoldable pub causal_mask : ℕ → Kv Tensor
  causal_mask size = lifted (
      of_bytes
        (join
          (map (λ i. map (λ j. if ltb i j then 1 else 0) (range_from 0 size)) (range_from 0 size)))
        (1 ∷ 1 ∷ size ∷ size ∷ []))
    where
      join : List (List ℕ) → List ℕ
      join [] = []
      join (xs ∷ xss) = xs ++ join xss

  unfoldable pub masked_fill : Tensor → Tensor → ℕ → Kv Tensor
  masked_fill on_false mask on_true = do
    scalar ← lifted (of_scalar on_true)
    full ← lifted (broadcast_as (dims mask) scalar)
    lifted (where_cond mask full on_false)

  pub record Gpt2Mlp : Type 0 where
    pub c_fc : Conv1d
    pub c_proj : Conv1d

  unfoldable pub mlp_forward : Gpt2Mlp → Tensor → Kv Tensor
  unfolding conv_forward
  mlp_forward mlp xs = do
    hidden ← conv_forward mlp.c_fc xs
    active ← lifted (C.gelu hidden)
    conv_forward mlp.c_proj active

  -- `dims3`, `dims4` and `dim`, which fail on a tensor of another rank.
  unfoldable pub triple : List ℕ → Kv (ℕ × ℕ × ℕ)
  triple (a ∷ (b ∷ (c ∷ []))) = return (a, b, c)
  triple _ = fails (backend_failed 0)

  unfoldable pub quadruple : List ℕ → Kv (ℕ × ℕ × ℕ × ℕ)
  quadruple (a ∷ (b ∷ (c ∷ (d ∷ [])))) = return (a, b, c, d)
  quadruple _ = fails (backend_failed 0)

  unfoldable pub dims3 : Tensor → Kv (ℕ × ℕ × ℕ)
  unfolding triple
  dims3 xs = triple (dims xs)

  unfoldable pub dims4 : Tensor → Kv (ℕ × ℕ × ℕ × ℕ)
  unfolding quadruple
  dims4 xs = quadruple (dims xs)

  unfoldable pub dim : Tensor → ℕ → Kv ℕ
  dim xs axis = lifted (get_elem? (dims xs) axis)
