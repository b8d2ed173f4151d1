-- ===== src/Tests/Cache.antt =====
-- A cache of two slots and two layers.
use hotbatch.Base.{
  ℕ, zero, suc, ◌<◌, ◌≤◌, ◌≡◌, refl, true, false, none, some, List, [], ◌∷◌, arith, length, ok, err,
  ◌⊎◌,
}
use hotbatch.KvCache.{
  KvHandle, SlabKvCache, new, allocate, free, write, read, is_current_handle, has_room_for, occupy,
  stale_read, stale_write, layer_out_of_range, shape_error, no_room, KvError,
}
use hotbatch.KvCache.Invariant.{IsSlab, new-IsSlab, allocate-IsSlab}
use hotbatch.KvCache.Handles.{
  allocate_total, HasGenerations, writes, allocates, here, next, Step-IsSlab, released_handle_dead,
}
use hotbatch.KvCache.Storage.{write_total, read-write}
use hotbatch.KvCache.Refinement.{SpecStep, view, Shows, Step-refines}
use hotbatch.Tests.Instances.{tensors}

abbrev pub cache : SlabKvCache (List ℕ)
cache = record {
  max_seqs = 2;
  max_seq_len = 8;
  num_layers = 2;
  n_heads = 4;
  head_dim = 3;
  free_slots = 0 ∷ 1 ∷ [];
  allocated = [];
  next_generations = 0 ∷ 0 ∷ [];
  layers = [];
}

abbrev pub handle : KvHandle
handle = record { slot = 0; capacity_tokens = 5; generation = 1 }

abbrev pub filled : SlabKvCache (List ℕ)
filled = record {
  max_seqs = 2;
  max_seq_len = 8;
  num_layers = 2;
  n_heads = 4;
  head_dim = 3;
  free_slots = 1 ∷ [];
  allocated = (0, handle) ∷ [];
  next_generations = 1 ∷ 0 ∷ [];
  layers = (0, none ∷ none ∷ []) ∷ [];
}

abbrev shape : List ℕ
shape = 4 ∷ 5 ∷ 3 ∷ []

abbrev written : SlabKvCache (List ℕ)
written = record filled { layers = (0, none ∷ some (shape, shape) ∷ []) ∷ [] }

new_cache : new {Tensor = List ℕ} 2 8 2 4 3 ≡ cache
unfolding new
new_cache = refl

pub cache-IsSlab : IsSlab tensors cache
unfolding new
cache-IsSlab = new-IsSlab tensors 2 8 2 4 3

pub allocated_here : allocate cache 2 3 ≡ ok (handle, filled)
unfolding allocate occupy has_room_for
allocated_here = refl

pub filled-IsSlab : IsSlab tensors filled
filled-IsSlab = allocate-IsSlab tensors cache 2 3 handle filled cache-IsSlab allocated_here

written_here : write tensors filled handle 1 shape shape ≡ ok written
unfolding write is_current_handle
written_here = refl

holds : is_current_handle filled handle ≡ true
unfolding is_current_handle
holds = refl

allocate_total_example :
    ((has_room_for cache 2 3 ≡ true)
      × ((h : KvHandle) × (c' : SlabKvCache (List ℕ)) × (allocate cache 2 3 ≡ ok (h, c'))
          × (is_current_handle cache h ≡ false)
          × (is_current_handle c' h ≡ true)
          × (h.capacity_tokens ≡ 5)
          × (length c'.allocated ≡ 1)))
    ⊎ ((has_room_for cache 2 3 ≡ false) × (allocate cache 2 3 ≡ err (no_room 2 3 8)))
allocate_total_example = allocate_total cache 2 3 cache-IsSlab.partition

Step-IsSlab_example : IsSlab tensors written
Step-IsSlab_example =
    Step-IsSlab tensors filled written (writes handle 1 shape shape written_here) filled-IsSlab

-- The slot is given back, and the next one is granted.
abbrev handle2 : KvHandle
handle2 = record { slot = 1; capacity_tokens = 7; generation = 1 }

abbrev refilled : SlabKvCache (List ℕ)
refilled = record filled {
  free_slots = 0 ∷ [];
  allocated = (1, handle2) ∷ [];
  next_generations = 1 ∷ 1 ∷ [];
  layers = (1, none ∷ none ∷ []) ∷ [];
}

has_generations : HasGenerations (free filled handle)
unfolding free is_current_handle
has_generations zero g e = ground (arith, e)
has_generations (suc zero) g e = ground (arith, e)
has_generations (suc (suc i)) g e = absurd (ground (arith, e))

allocated_again : allocate (free filled handle) 3 4 ≡ ok (handle2, refilled)
unfolding allocate occupy has_room_for free is_current_handle
allocated_again = refl

released_handle_dead_example :
    (read tensors refilled handle 1 ≡ err (stale_read 0))
    × (write tensors refilled handle 1 shape shape ≡ err (stale_write 0))
    × (free refilled handle ≡ refilled)
released_handle_dead_example =
    released_handle_dead tensors filled refilled handle 1 shape shape filled-IsSlab holds
      (next here (allocates 3 4 handle2 allocated_again) has_generations)

write_total_example :
    ((is_current_handle filled handle ≡ false)
      × (write tensors filled handle 2 shape shape ≡ err (stale_write 0)))
    ⊎ ((is_current_handle filled handle ≡ true)
        × (2 ≤ 2)
        × (write tensors filled handle 2 shape shape ≡ err (layer_out_of_range 2 2)))
    ⊎ ((e : KvError) × (is_current_handle filled handle ≡ true)
        × (2 < 2)
        × (shape_error tensors filled handle shape shape ≡ some e)
        × (write tensors filled handle 2 shape shape ≡ err e))
    ⊎ ((c' : SlabKvCache (List ℕ)) × (is_current_handle filled handle ≡ true)
        × (2 < 2)
        × (shape_error tensors filled handle shape shape ≡ none)
        × (write tensors filled handle 2 shape shape ≡ ok c'))
write_total_example = write_total tensors filled handle 2 shape shape filled-IsSlab

read-write_example : read tensors written handle 1 ≡ ok (shape, shape)
read-write_example =
    read-write tensors filled handle 1 shape shape written filled-IsSlab written_here

Step-refines_example :
    SpecStep tensors {c = filled} {c' = written} (writes handle 1 shape shape written_here)
    × ((h : KvHandle) (layer : ℕ)
        → Shows tensors written (view written h layer) (read tensors written h layer))
Step-refines_example =
    Step-refines tensors filled written filled-IsSlab (writes handle 1 shape shape written_here)
