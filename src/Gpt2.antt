-- ===== src/Gpt2.antt =====
-- `Gpt2Model` of crates/hotbatch-core/src/model.rs: the passes of the transformer over the tensor
-- library.
mod Steps
mod Layers
mod Attention
mod Passes
pub use Steps.{Candle, Step}
unfoldable pub use Steps.{◌>>=◌, ◌>>◌, return, fails, lifted, read_kv, write_kv}
pub use Layers.{Conv1d, ConvLayout, in_out, out_in, Gpt2Mlp}
unfoldable pub use Layers.{
  matmul_as, matmul2d, project, conv_forward, causal_mask, masked_fill, mlp_forward, triple,
  quadruple, dims3, dims4, dim,
}
pub use Attention.{Gpt2Attention}
unfoldable pub use Attention.{
  prefill_attention, catenated, extended, store_row, decode_row, decode_rows, decode_attention,
  heads_of, attention_forward,
}
pub use Passes.{Gpt2Config, Gpt2Block, Gpt2Model}
unfoldable pub use Passes.{
  max_positions, kv_shape, block_forward, blocks_forward, forward_t, prefill, forward,
}
pub mod Load
pub mod Loaded
pub mod Tame
pub mod Inversion
pub mod Growth
pub mod Rows
pub mod Confined
