-- ===== src/Model.antt =====
-- crates/hotbatch-core/src/model.rs: the batch types and `SmallTransformer`, whose tensor backends
-- are behind an interface.
mod Defs
pub use Defs.{DecodeInput, DecodeLogits, Pass, passed, failed, Writes, here, next, Backend}
unfoldable pub use Defs.{dim, row, first_over, prefill, forward}
pub mod Frame
