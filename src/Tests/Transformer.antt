-- ===== src/Tests/Transformer.antt =====
-- Tensors that are their shapes: an operation gives the shape that the model needs next.
use hotbatch.Base.{ℕ, ◌+◌, ◌≡◌, refl, Option, none, some, List, [], ◌∷◌, arith, length, ok}
use hotbatch.KvCache.{SlabKvCache, read, write, is_current_handle, dim_at}
use hotbatch.KvCache.Invariant.{IsSlab, write-IsSlab}
use hotbatch.Model.{DecodeInput}
use hotbatch.Gpt2.{
  Candle, Gpt2Config, Gpt2Model, Gpt2Attention, Conv1d, in_out, prefill, forward, decode_attention,
}
use hotbatch.Gpt2.Tame.{IsTame}
use hotbatch.Gpt2.Confined.{passes-IsTame}
use hotbatch.Tests.Instances.{tensors}
use hotbatch.Gpt2.{
  ◌>>=◌, return, lifted, read_kv, write_kv, quadruple, dims4, dim, catenated, extended, store_row,
  decode_row, decode_rows,
}
use hotbatch.Gpt2.Growth.{KeepsShapes}
use hotbatch.Gpt2.Rows.{BatchDone, decode_attention-BatchDone}
use hotbatch.Tests.Cache.{handle, filled, filled-IsSlab}

abbrev behind : List ℕ → List ℕ
behind [] = []
behind (d ∷ ds) = ds

-- `cat` on axis 1 of two shapes.
abbrev longer : List ℕ → ℕ → Option (List ℕ)
longer (a ∷ (n ∷ ds)) m = some (a ∷ (n + m) ∷ ds)
longer _ m = none

abbrev joined : List (List ℕ) → Option (List ℕ)
joined (t ∷ []) = some t
joined (t ∷ (u ∷ [])) = longer t (dim_at u 1)
joined _ = none

abbrev pub candle : Candle tensors
candle = record {
  Embedding = List ℕ;
  LayerNorm = Unit {0};
  embed = λ table xs. some table;
  embeddings = λ table. table;
  normalize = λ norm xs. some xs;
  of_rows = λ rows. some (length rows ∷ 1 ∷ []);
  of_scalar = λ x. some [];
  of_bytes = λ bytes shape. some shape;
  to_rows = λ xs. some ((1 ∷ []) ∷ []);
  add = λ a b. some a;
  broadcast_add = λ a b. some a;
  broadcast_as = λ shape xs. some shape;
  scale_by = λ x xs. some xs;
  matmul = λ a b. some a;
  t = λ xs. some xs;
  transpose = λ i j xs. some xs;
  contiguous = λ xs. some xs;
  reshape = λ shape xs. some shape;
  reshape_to = λ shape xs. some shape;
  flatten_from = λ n xs. some xs;
  squeeze = λ n xs. some xs;
  narrow = λ axis start n xs. some xs;
  index = λ i xs. some (behind xs);
  cat = λ ts axis. joined ts;
  softmax_last_dim = λ xs. some xs;
  gelu = λ xs. some xs;
  where_cond = λ mask a b. some b;
}

abbrev conv : Conv1d candle
conv = record { weight = 12 ∷ 12 ∷ []; bias = 12 ∷ []; layout = in_out; out_dim = 12 }

abbrev attention : Gpt2Attention candle
attention = record { c_attn = conv; c_proj = conv; n_head = 4; head_dim = 3; scale = 1 }

abbrev pub config : Gpt2Config
config = record {
  vocab_size = 3;
  n_positions = some 8;
  n_ctx = none;
  n_embd = 12;
  n_layer = 1;
  n_head = 4;
  layer_norm_epsilon = 0;
}

abbrev model : Gpt2Model candle
model = record {
  config = config;
  head_dim = 3;
  wte = 1 ∷ 1 ∷ 12 ∷ [];
  wpe = 1 ∷ 1 ∷ 12 ∷ [];
  blocks =
      record { ln_1 = tt; attn = attention; ln_2 = tt; mlp = record { c_fc = conv; c_proj = conv } }
      ∷ [];
  ln_f = tt;
}

abbrev input : DecodeInput
input = record {
  seq_id = 1;
  kv_handle = handle;
  last_token = 6;
  position = 2;
  prompt_hash = 0;
  seed = 5;
}

passes-IsTame_example :
    IsTame candle (prefill candle model (5 ∷ 6 ∷ []) handle)
    × IsTame candle (forward candle model (input ∷ []))
passes-IsTame_example = passes-IsTame candle model (5 ∷ 6 ∷ []) handle (input ∷ [])

-- A layer with two tokens, and one more.
abbrev two_tokens : List ℕ
two_tokens = 4 ∷ 2 ∷ 3 ∷ []

abbrev one_row : List ℕ
one_row = 1 ∷ 4 ∷ 1 ∷ 3 ∷ []

abbrev warm : SlabKvCache (List ℕ)
warm = record filled { layers = (0, none ∷ some (two_tokens, two_tokens) ∷ []) ∷ [] }

warm_here : write tensors filled handle 1 two_tokens two_tokens ≡ ok warm
unfolding write is_current_handle
warm_here = refl

warm-IsSlab : IsSlab tensors warm
warm-IsSlab =
    write-IsSlab tensors filled handle 1 two_tokens two_tokens warm filled-IsSlab warm_here

joined_dims :
    (xs ys zs : List ℕ) → joined (xs ∷ ys ∷ []) ≡ some zs → dim_at zs 1 ≡ dim_at xs 1 + dim_at ys 1
joined_dims (a ∷ (n ∷ ds)) ys zs e = ground (arith, e)
joined_dims [] ys zs e = absurd (ground (arith, e))
joined_dims (a ∷ []) ys zs e = absurd (ground (arith, e))

laws : KeepsShapes candle
laws = record {
  index_dims = λ row xs ys d ds e s. ground (arith, e, s);
  contiguous_dims = λ xs ys e. ground (arith, e);
  cat_dims = joined_dims;
}

attended :
    (decode_attention candle attention one_row one_row one_row 1 (handle ∷ []) warm).0
    ≡ ok (1 ∷ 1 ∷ [])
unfolding decode_attention decode_rows decode_row store_row extended catenated dim dims4 quadruple
    read_kv write_kv lifted return ◌>>=◌ read write is_current_handle
attended = refl

decode_attention-BatchDone_example :
    BatchDone candle
      (handle ∷ [])
      1
      warm
      (decode_attention candle attention one_row one_row one_row 1 (handle ∷ []) warm).1
decode_attention-BatchDone_example =
    decode_attention-BatchDone candle attention laws one_row one_row one_row 1 (handle ∷ []) warm 1
      4 3 (1 ∷ 1 ∷ []) warm-IsSlab (tt, tt) refl attended
