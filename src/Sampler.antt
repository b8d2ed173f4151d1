-- ===== src/Sampler.antt =====
-- crates/hotbatch-core/src/sampler.rs, and `argmax` of crates/hotbatch-core/src/model.rs: how a
-- token is drawn from a row of logits.
mod Defs
mod Draw
pub use Defs.{SamplerConfig, Sampler}
unfoldable pub use Defs.{default_config, new}
pub use Draw.{Floats}
unfoldable pub use Draw.{argmax, sample}
pub mod Range
