-- ===== src/Gpt2/Loaded.antt =====
-- What a model that was loaded is.
use hotbatch.Base.{
  ℕ, zero, suc, ◌*◌, ◌/◌, ◌%◌, ◌<◌, ◌≡◌, refl, sym, ap, subst, ◌⊎◌, Option, none, some, List, [],
  ◌∷◌, Result, ok, err, panic, length, All, arith,
}
use native.Mathlib.Omega.{div_any}
use hotbatch.KvCache.{Tensors}
use hotbatch.Gpt2.Steps.{Candle}
use hotbatch.Gpt2.Layers.{Conv1d, ConvLayout, in_out, out_in, Gpt2Mlp}
use hotbatch.Gpt2.Attention.{Gpt2Attention}
use hotbatch.Gpt2.Passes.{kv_shape, Gpt2Config, max_positions, Gpt2Block, Gpt2Model}
use hotbatch.Gpt2.Load.{
  Name, attn, mlp, LoadError, ◌>>=◌, Checkpoint, layout_of, within, checked_config, new_conv,
  new_mlp, new_attention, new_block, new_blocks, load_weights, load,
}

made :
    {A B : Type 0} (m : Result LoadError A) (f : A → Result LoadError B) (b : B)
    → (m >>= f) ≡ ok b
    → (a : A) × (m ≡ ok a) × (f a ≡ ok b)
unfolding ◌>>=◌
made (ok a) f b e = (a, refl, e)
made (err x) f b e = absurd (ground (arith, e))
made panic f b e = absurd (ground (arith, e))

within-ok :
    {A : Type 0} (layer : ℕ) (part : Name) (m : Result LoadError A) (a : A)
    → within layer part m ≡ ok a
    → m ≡ ok a
within-ok layer part (ok x) a e = e
within-ok layer part (err x) a e = absurd (ground (arith, e))
within-ok layer part panic a e = absurd (ground (arith, e))

ok-injective : {A : Type 0} {a b : A} → ◌≡◌ {A = Result LoadError A} (ok a) (ok b) → a ≡ b
ok-injective e = ground (arith, e)

record IsChecked (c : Gpt2Config) : Type 0 where
  positive : (0 < c.vocab_size) × (0 < c.n_layer) × (0 < max_positions c)
  sizes : (0 < c.n_embd) × (0 < c.n_head)
  even : c.n_embd % c.n_head ≡ 0

checked : (c d : Gpt2Config) → checked_config c ≡ ok d → (c ≡ d) × IsChecked c
unfolding checked_config
checked c d e = (
  ground (arith, e),
  record {
    positive = (ground (arith, e), ground (arith, e), ground (arith, e));
    sizes = (ground (arith, e), ground (arith, e));
    even = ground (arith, e);
  },
)

whole_times : (a b : ℕ) → a % b ≡ 0 → b * (a / b) ≡ a
whole_times a b e = omega (arith, div_any a b, e)

positive_factor : (a b d : ℕ) → 0 < a → b * d ≡ a → 0 < d
positive_factor a b zero p e = absurd (omega (arith, p, e))
positive_factor a b (suc d) p e = omega arith

module _ {T : Tensors} {C : Candle T} where
  open T use {dims}

  -- The weights take inputs of one size to outputs of the other, the way that the layout says.
  abbrev pub Fits : ℕ → ℕ → Conv1d C → Type 0
  Fits in_dim out_dim conv =
      (conv.out_dim ≡ out_dim)
      × (((conv.layout ≡ in_out) × (dims conv.weight ≡ in_dim ∷ out_dim ∷ []))
          ⊎ ((conv.layout ≡ out_in) × (dims conv.weight ≡ out_dim ∷ in_dim ∷ [])))

  abbrev pub IsAttention : Gpt2Config → Gpt2Attention C → Type 0
  IsAttention config attention =
      (attention.n_head ≡ config.n_head)
      × (attention.head_dim ≡ config.n_embd / config.n_head)
      × Fits config.n_embd (3 * config.n_embd) attention.c_attn
      × Fits config.n_embd config.n_embd attention.c_proj

  abbrev pub IsMlp : Gpt2Config → Gpt2Mlp C → Type 0
  IsMlp config perceptron =
      Fits config.n_embd (4 * config.n_embd) perceptron.c_fc
      × Fits (4 * config.n_embd) config.n_embd perceptron.c_proj

  -- The block has the heads that `kv_shape` tells the cache, and weights of the model's width.
  abbrev pub IsBlock : Gpt2Config → Gpt2Block C → Type 0
  IsBlock config block = IsAttention config block.attn × IsMlp config block.mlp

  -- The sizes make sense, every layer has its block, and the heads share the width evenly.
  pub record IsLoaded (model : Gpt2Model C) : Type 0 where
    pub positive :
        (0 < model.config.vocab_size)
        × (0 < model.config.n_layer)
        × (0 < max_positions model.config)
    pub shared_out : model.config.n_head * model.head_dim ≡ model.config.n_embd
    pub some_width : 0 < model.head_dim
    pub shape :
        kv_shape C model
        ≡ (length model.blocks, model.config.n_head, model.config.n_embd / model.config.n_head)
    pub fitted : All (IsBlock model.config) model.blocks

  module _ (K : Checkpoint C) where
    open K use {VarBuilder, pp}

    layout_of-cases :
        (ds : List ℕ) (in_dim out_dim : ℕ) (l : ConvLayout)
        → layout_of ds in_dim out_dim ≡ ok l
        → ((l ≡ in_out) × (ds ≡ in_dim ∷ out_dim ∷ []))
          ⊎ ((l ≡ out_in) × (ds ≡ out_dim ∷ in_dim ∷ []))
    unfolding layout_of
    layout_of-cases [] i o l e = absurd (ground (arith, e))
    layout_of-cases (a ∷ []) i o l e = absurd (ground (arith, e))
    layout_of-cases (a ∷ (b ∷ [])) i o l e = ground (arith, e)
    layout_of-cases (a ∷ (b ∷ (d ∷ ds))) i o l e = absurd (ground (arith, e))

    new_conv-Fits :
        (in_dim out_dim : ℕ) (vb : VarBuilder) (conv : Conv1d C)
        → new_conv K in_dim out_dim vb ≡ ok conv
        → Fits in_dim out_dim conv
    unfolding new_conv
    new_conv-Fits i o vb conv e =
        let (w, h1, e1) = made _ _ conv e in
        let (b, h2, e2) = made _ _ conv e1 in
        let (l, h3, e3) = made _ _ conv e2 in ground (arith, e3, layout_of-cases (dims w) i o l h3)

    new_attention-IsAttention :
        (config : Gpt2Config) (vb : VarBuilder) (a : Gpt2Attention C)
        → new_attention K config vb ≡ ok a
        → IsAttention config a
    unfolding new_attention
    new_attention-IsAttention config vb a e =
        let (qkv, h1, e1) = made _ _ a e in
        let (proj, h2, e2) = made _ _ a e1 in
        subst (IsAttention config) (ok-injective e2)
          (refl, refl, new_conv-Fits _ _ _ qkv h1, new_conv-Fits _ _ _ proj h2)

    new_mlp-IsMlp :
        (config : Gpt2Config) (vb : VarBuilder) (m : Gpt2Mlp C)
        → new_mlp K config vb ≡ ok m
        → IsMlp config m
    unfolding new_mlp
    new_mlp-IsMlp config vb m e =
        let (fc, h1, e1) = made _ _ m e in
        let (proj, h2, e2) = made _ _ m e1 in
        subst (IsMlp config) (ok-injective e2)
          (new_conv-Fits _ _ _ fc h1, new_conv-Fits _ _ _ proj h2)

    new_block-IsBlock :
        (config : Gpt2Config) (layer : ℕ) (vb : VarBuilder) (block : Gpt2Block C)
        → new_block K config layer vb ≡ ok block
        → IsBlock config block
    unfolding new_block
    new_block-IsBlock config layer vb block e =
        let (l1, h1, e1) = made _ _ block e in
        let (a, h2, e2) = made _ _ block e1 in
        let (l2, h3, e3) = made _ _ block e2 in
        let (m, h4, e4) = made _ _ block e3 in
        subst (IsBlock config) (ok-injective e4) (
          new_attention-IsAttention config _ a (within-ok layer attn _ a h2),
          new_mlp-IsMlp config _ m (within-ok layer mlp _ m h4),
        )

    new_blocks-All :
        (config : Gpt2Config) (vb : VarBuilder) (n layer : ℕ) (blocks : List (Gpt2Block C))
        → new_blocks K config vb n layer ≡ ok blocks
        → (length blocks ≡ n) × All (IsBlock config) blocks
    unfolding new_blocks
    new_blocks-All config vb zero layer blocks e =
        subst (λ bs. (length bs ≡ 0) × All (IsBlock config) bs) (ok-injective e) (refl, tt)
    new_blocks-All config vb (suc n) layer blocks e =
        let (b, h1, e1) = made _ _ blocks e in
        let (bs, h2, e2) = made _ _ blocks e1 in
        let (counted, all) = new_blocks-All config vb n (suc layer) bs h2 in
        subst (λ bs. (length bs ≡ suc n) × All (IsBlock config) bs) (ok-injective e2)
          (ap suc counted, (new_block-IsBlock config layer _ b h1, all))

    load_weights-IsLoaded :
        (config : Gpt2Config) (vb : VarBuilder) (model : Gpt2Model C)
        → IsChecked config
        → load_weights K config vb ≡ ok model
        → IsLoaded model
    unfolding load_weights kv_shape
    load_weights-IsLoaded config vb model c e =
        let (tokens, h1, e1) = made _ _ model e in
        let (positions, h2, e2) = made _ _ model e1 in
        let (blocks, h3, e3) = made _ _ model e2 in
        let (last, h4, e4) = made _ _ model e3 in
        let (layers, fitted) = new_blocks-All config vb _ _ blocks h3 in
        subst IsLoaded (ok-injective e4) (record {
          positive = c.positive;
          shared_out = whole_times config.n_embd config.n_head c.even;
          some_width =
              positive_factor config.n_embd config.n_head _ c.sizes.0
                (whole_times config.n_embd config.n_head c.even);
          shape = ap (λ n. (n, config.n_head, config.n_embd / config.n_head)) (sym layers);
          fitted = fitted;
        })

    -- A model that `load` gives is one that the passes and the cache can work with: no size is zero, the
    -- heads share the width evenly, the cache is made for as many layers as there are blocks, each block
    -- has the heads and the head size that the cache is made for, and the weights of its four
    -- projections have the shape and the orientation that its layout says.
    pub load-IsLoaded :
        (parsed : Option (Option Gpt2Config)) (weights : Option (Option VarBuilder))
        (model : Gpt2Model C)
        → load K parsed weights ≡ ok model
        → IsLoaded model
    unfolding load
    load-IsLoaded none weights model e = absurd (ground (arith, e))
    load-IsLoaded (some none) weights model e = absurd (ground (arith, e))
    load-IsLoaded (some (some config)) none model e =
        let (c, h, r) = made _ _ model e in absurd (ground (arith, r))
    load-IsLoaded (some (some config)) (some none) model e =
        let (c, h, r) = made _ _ model e in absurd (ground (arith, r))
    load-IsLoaded (some (some config)) (some (some root)) model e =
        let (c, h, r) = made _ _ model e in
        load_weights-IsLoaded c _ model
          (subst IsChecked (checked config c h).0 (checked config c h).1) r
