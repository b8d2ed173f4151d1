-- ===== src/Tests/Loading.antt =====
-- Weights whose tensors are shapes: a model of one layer, with both layouts.
use hotbatch.Base.{ℕ, ◌≡◌, refl, Option, none, some, List, [], ◌∷◌, false, ok}
use hotbatch.Gpt2.{Gpt2Model, in_out, out_in, max_positions}
use hotbatch.Gpt2.Load.{
  Name, attn, mlp, c_attn, c_proj, c_fc, ◌>>=◌, Checkpoint, layout_of, checked_config, new_conv,
  layer_norm, new_mlp, new_attention, new_block, new_blocks, load_weights, load,
}
use hotbatch.Gpt2.Loaded.{IsLoaded, load-IsLoaded}
use hotbatch.Tests.Transformer.{candle, config}

-- The shape of the weight at a path, the last name first.
abbrev weight_at : List Name → Option (List ℕ)
weight_at (c_attn ∷ path) = some (12 ∷ 36 ∷ [])
weight_at (c_proj ∷ (attn ∷ path)) = some (12 ∷ 12 ∷ [])
weight_at (c_fc ∷ path) = some (12 ∷ 48 ∷ [])
weight_at (c_proj ∷ (mlp ∷ path)) = some (12 ∷ 48 ∷ [])
weight_at path = none

abbrev checkpoint : Checkpoint candle
checkpoint = record {
  VarBuilder = List Name;
  pp = λ name path. name ∷ path;
  get = λ shape name path. some shape;
  get_unchecked = λ name path. weight_at path;
  contains_tensor = λ names path. false;
  new_embedding = λ table width. table;
  new_layer_norm = λ w b eps. tt;
  inverse_sqrt = λ n. n;
}

abbrev assembled : Gpt2Model candle
assembled = record {
  config = config;
  head_dim = 3;
  wte = 3 ∷ 12 ∷ [];
  wpe = 8 ∷ 12 ∷ [];
  blocks =
      record {
        ln_1 = tt;
        attn = record {
          c_attn = record { weight = 12 ∷ 36 ∷ []; bias = 36 ∷ []; layout = in_out; out_dim = 36 };
          c_proj = record { weight = 12 ∷ 12 ∷ []; bias = 12 ∷ []; layout = in_out; out_dim = 12 };
          n_head = 4;
          head_dim = 3;
          scale = 3;
        };
        ln_2 = tt;
        mlp = record {
          c_fc = record { weight = 12 ∷ 48 ∷ []; bias = 48 ∷ []; layout = in_out; out_dim = 48 };
          c_proj = record { weight = 12 ∷ 48 ∷ []; bias = 12 ∷ []; layout = out_in; out_dim = 12 };
        };
      }
      ∷ [];
  ln_f = tt;
}

loaded : load checkpoint (some (some config)) (some (some [])) ≡ ok assembled
unfolding ◌>>=◌ layout_of checked_config new_conv layer_norm new_mlp new_attention new_block
    new_blocks load_weights load max_positions
loaded = refl

load-IsLoaded_example : IsLoaded assembled
load-IsLoaded_example =
    load-IsLoaded checkpoint (some (some config)) (some (some [])) assembled loaded
