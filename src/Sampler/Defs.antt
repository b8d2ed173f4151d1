-- ===== src/Sampler/Defs.antt =====
-- The sampler's configuration and state. A float is its bit pattern.
use Prim.Native.Nat.{bit_xor}
use hotbatch.Base.{ℕ, Option, none, List, []}

pub record SamplerConfig : Type 0 where
  pub temperature : ℕ
  pub top_p : ℕ
  pub top_k : Option ℕ
  pub stop_sequences : List (List ℕ)
  pub max_new_tokens : ℕ
  pub eos_token : ℕ
  pub seed : ℕ

unfoldable pub default_config : SamplerConfig
default_config = record {
  temperature = 0;
  top_p = 0x3f80_0000;
  top_k = none;
  stop_sequences = [];
  max_new_tokens = 16;
  eos_token = 50_256;
  seed = 0;
}

pub record Sampler : Type 0 where
  pub config : SamplerConfig
  pub open config use *
  pub rng_state : ℕ

unfoldable pub new : SamplerConfig → Sampler
new config = record { config = config; rng_state = bit_xor config.seed 0x9e37_79b9_7f4a_7c15 }
