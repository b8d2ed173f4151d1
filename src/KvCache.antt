-- ===== src/KvCache.antt =====
-- crates/hotbatch-core/src/kv_cache.rs: the slab key/value cache. Its hash maps are association
-- lists; tensors are those of the tensor library, of which the code reads the shape only.
mod Defs
pub use Defs.{
  KvHandle, handle_eq, Tensors, Layers, SlabKvCache, KvError, no_room, no_free_slots, stale_write,
  stale_read, layer_out_of_range, missing_storage, bad_rank, shape_mismatch, head_mismatch,
  head_dim_mismatch, capacity_exceeded, tensor_failed,
}
unfoldable pub use Defs.{
  new, allocated_slots, dim_at, occupy, shape_error, store, empty_pair, capacity_shape,
  is_current_handle, has_room_for, allocate, free, write, read,
}
pub mod Slots
pub mod Invariant
pub mod Handles
pub mod Storage
pub mod Owners
pub mod Refinement
