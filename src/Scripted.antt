-- ===== src/Scripted.antt =====
-- `ScriptedModel` of crates/hotbatch-core/src/model.rs: the model that answers from a fixed text.
mod Defs
pub use Defs.{ScriptedModel}
unfoldable pub use Defs.{
  script, new, max_positions, kv_shape, put_logit, scripted_row, write_marker, prefill,
  forward_from, forward,
}
pub mod Total
