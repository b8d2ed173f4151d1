-- ===== src/Gpt2/Load.antt =====
-- `Gpt2Model::load` and what it makes: the sizes are checked, and the weights are taken by name.
use hotbatch.Base.{
  ℕ, zero, suc, ◌*◌, ◌/◌, ◌%◌, Option, none, some, List, [], ◌∷◌, Bool, ◌&&◌, ◌||◌, not, ◌==◌,
  if◌then◌else◌, Result, ok, err, panic,
}
use hotbatch.KvCache.{Tensors}
use hotbatch.Gpt2.Steps.{Candle}
use hotbatch.Gpt2.Layers.{Conv1d, ConvLayout, in_out, out_in, Gpt2Mlp}
use hotbatch.Gpt2.Attention.{Gpt2Attention}
use hotbatch.Gpt2.Passes.{Gpt2Config, max_positions, Gpt2Block, Gpt2Model}

-- The names in the weights' file.
pub data Name : Type 0 where
  transformer wte wpe h ln_f ln_1 ln_2 attn mlp c_attn c_proj c_fc weight bias : Name
  number : ℕ → Name

-- `in_layer` is the context that an error in a block gets.
pub data LoadError : Type 0 where
  config_unreadable config_unparsed weights_unreadable weights_unloaded tensor_missing : LoadError
  bad_sizes : (vocab_size n_embd n_layer n_head positions : ℕ) → LoadError
  not_divisible : (n_embd n_head : ℕ) → LoadError
  weight_shape : List ℕ → (in_dim out_dim : ℕ) → LoadError
  in_layer : ℕ → Name → LoadError → LoadError

infixl 5 ◌>>=◌
unfoldable pub ◌>>=◌ :
    {A B : Type 0} → Result LoadError A → (A → Result LoadError B) → Result LoadError B
◌>>=◌ (ok a) f = f a
◌>>=◌ (err e) f = err e
◌>>=◌ panic f = panic

-- The library's builder of weights: `pp` goes to a name, `get` checks the shape.
pub record Checkpoint {T : Tensors} (C : Candle T) : Type 1 where
  pub VarBuilder : Type 0
  pub pp : Name → VarBuilder → VarBuilder
  pub get : List ℕ → Name → VarBuilder → Option T.Tensor
  pub get_unchecked : Name → VarBuilder → Option T.Tensor
  pub contains_tensor : List Name → VarBuilder → Bool
  pub new_embedding : T.Tensor → ℕ → C.Embedding
  pub new_layer_norm : T.Tensor → T.Tensor → ℕ → C.LayerNorm
  -- `1.0 / (n as f64).sqrt()`
  pub inverse_sqrt : ℕ → ℕ

-- `match dims` of `Conv1D::new`.
unfoldable pub layout_of : List ℕ → ℕ → ℕ → Result LoadError ConvLayout
layout_of (a ∷ (b ∷ [])) in_dim out_dim =
    if a == in_dim && b == out_dim
    then ok in_out
    else if b == in_dim && a == out_dim
    then ok out_in
    else err (weight_shape (a ∷ b ∷ []) in_dim out_dim)
layout_of ds in_dim out_dim = err (weight_shape ds in_dim out_dim)

abbrev pub found : {A : Type 0} → Option A → Result LoadError A
found none = err tensor_missing
found (some a) = ok a

abbrev pub within : {A : Type 0} → ℕ → Name → Result LoadError A → Result LoadError A
within layer part (ok a) = ok a
within layer part (err e) = err (in_layer layer part e)
within layer part panic = panic

-- The checks of a configuration.
unfoldable pub checked_config : Gpt2Config → Result LoadError Gpt2Config
unfolding max_positions
checked_config c =
    if c.vocab_size == 0
      || (c.n_embd == 0 || (c.n_layer == 0 || (c.n_head == 0 || max_positions c == 0)))
    then err (bad_sizes c.vocab_size c.n_embd c.n_layer c.n_head (max_positions c))
    else if not (c.n_embd % c.n_head == 0)
    then err (not_divisible c.n_embd c.n_head)
    else ok c

module _ {T : Tensors} {C : Candle T} (K : Checkpoint C) where
  open T use {Tensor, dims}
  open K use {
    VarBuilder, pp, get, get_unchecked, contains_tensor, new_embedding, new_layer_norm,
    inverse_sqrt,
  }

  unfoldable pub new_conv : ℕ → ℕ → VarBuilder → Result LoadError (Conv1d C)
  unfolding layout_of
  new_conv in_dim out_dim vb = do
    w ← found (get_unchecked weight vb)
    b ← found (get (out_dim ∷ []) bias vb)
    layout ← layout_of (dims w) in_dim out_dim
    ok (record { weight = w; bias = b; layout = layout; out_dim = out_dim })

  unfoldable pub layer_norm : VarBuilder → ℕ → ℕ → Result LoadError C.LayerNorm
  layer_norm vb hidden eps = do
    w ← found (get (hidden ∷ []) weight vb)
    b ← found (get (hidden ∷ []) bias vb)
    ok (new_layer_norm w b eps)

  unfoldable pub new_mlp : Gpt2Config → VarBuilder → Result LoadError (Gpt2Mlp C)
  unfolding new_conv
  new_mlp config vb = do
    fc ← new_conv config.n_embd (4 * config.n_embd) (pp c_fc vb)
    proj ← new_conv (4 * config.n_embd) config.n_embd (pp c_proj vb)
    ok (record { c_fc = fc; c_proj = proj })

  unfoldable pub new_attention : Gpt2Config → VarBuilder → Result LoadError (Gpt2Attention C)
  unfolding new_conv
  new_attention config vb = do
    qkv ← new_conv config.n_embd (3 * config.n_embd) (pp c_attn vb)
    proj ← new_conv config.n_embd config.n_embd (pp c_proj vb)
    ok (record {
      c_attn = qkv;
      c_proj = proj;
      n_head = config.n_head;
      head_dim = config.n_embd / config.n_head;
      scale = inverse_sqrt (config.n_embd / config.n_head);
    })

  unfoldable pub new_block : Gpt2Config → ℕ → VarBuilder → Result LoadError (Gpt2Block C)
  unfolding layer_norm new_attention new_mlp
  new_block config layer vb = do
    first ← within layer ln_1 (layer_norm (pp ln_1 vb) config.n_embd config.layer_norm_epsilon)
    a ← within layer attn (new_attention config (pp attn vb))
    second ← within layer ln_2 (layer_norm (pp ln_2 vb) config.n_embd config.layer_norm_epsilon)
    m ← within layer mlp (new_mlp config (pp mlp vb))
    ok (record { ln_1 = first; attn = a; ln_2 = second; mlp = m })

  -- The layers from one on: how many are left, and the next one's number.
  unfoldable pub new_blocks :
      Gpt2Config → VarBuilder → ℕ → ℕ → Result LoadError (List (Gpt2Block C))
  unfolding new_block
  new_blocks config vb zero layer = ok []
  new_blocks config vb (suc n) layer =
      new_block config layer (pp (number layer) (pp h vb)) >>= λ block.
      new_blocks config vb n (suc layer) >>= λ blocks. ok (block ∷ blocks)

  unfoldable pub load_weights : Gpt2Config → VarBuilder → Result LoadError (Gpt2Model C)
  unfolding layer_norm new_blocks max_positions
  load_weights config vb = do
    tokens ← found (get (config.vocab_size ∷ config.n_embd ∷ []) weight (pp wte vb))
    positions ← found (get (max_positions config ∷ config.n_embd ∷ []) weight (pp wpe vb))
    blocks ← new_blocks config vb config.n_layer 0
    last ← layer_norm (pp ln_f vb) config.n_embd config.layer_norm_epsilon
    ok (record {
      config = config;
      head_dim = config.n_embd / config.n_head;
      wte = new_embedding tokens config.n_embd;
      wpe = new_embedding positions config.n_embd;
      blocks = blocks;
      ln_f = last;
    })

  -- The files' contents are given, each with `none` where the file does not read or does not parse.
  unfoldable pub load :
      Option (Option Gpt2Config) → Option (Option VarBuilder) → Result LoadError (Gpt2Model C)
  unfolding checked_config load_weights
  load none weights = err config_unreadable
  load (some none) weights = err config_unparsed
  load (some (some parsed)) weights = checked_config parsed >>= λ config. elim weights [
    | none ↦ err weights_unreadable
    | some none ↦ err weights_unloaded
    | some (some root) ↦ load_weights config (
        if contains_tensor (transformer ∷ wte ∷ weight ∷ []) root
        then pp transformer root
        else root)
  ]
