-- ===== src/KvCache/Defs.antt =====
-- The cache's state and its operations.
use hotbatch.Base.{
  ℕ, zero, suc, ◌+◌, ◌≡◌, Bool, false, not, ◌&&◌, ◌||◌, Option, none, some, List, [], ◌∷◌, ◌++◌,
  ltb, leb, ◌==◌, if◌then◌else◌, length, get_elem?, set, replicate, range_from, lookup, remove,
  insert, is_empty, is_some_and, list_eq, Result, ok, err, panic,
}
use hotbatch.Base.Checked.{checked_add, wrapping_add}

pub record KvHandle : Type 0 where
  pub slot : ℕ
  pub capacity_tokens : ℕ
  pub generation : ℕ

-- The derived `PartialEq`.
unfoldable pub handle_eq : KvHandle → KvHandle → Bool
handle_eq h g =
    h.slot == g.slot && (h.capacity_tokens == g.capacity_tokens && h.generation == g.generation)

-- The tensor library: `dims` gives the shape, and `zeros` a tensor of a given shape or a failure.
pub record Tensors : Type 1 where
  pub Tensor : Type 0
  pub dims : Tensor → List ℕ
  pub zeros : List ℕ → Option Tensor
  pub dims-zeros : (s : List ℕ) (t : Tensor) → zeros s ≡ some t → dims t ≡ s

-- What a slot stores: a key and a value tensor, or nothing yet, for each layer.
abbrev pub Layers : Type 0 → Type 0
Layers Tensor = List (Option (Tensor × Tensor))

pub record SlabKvCache (Tensor : Type 0) : Type 0 where
  pub max_seqs : ℕ
  pub max_seq_len : ℕ
  pub num_layers : ℕ
  pub n_heads : ℕ
  pub head_dim : ℕ
  pub free_slots : List ℕ
  pub allocated : List (ℕ × KvHandle)
  pub next_generations : List ℕ
  pub layers : List (ℕ × Layers Tensor)

-- The errors, each with the values that its message shows.
pub data KvError : Type 0 where
  no_room : ℕ → ℕ → ℕ → KvError
  no_free_slots : KvError
  stale_write stale_read : ℕ → KvError
  layer_out_of_range : ℕ → ℕ → KvError
  missing_storage : ℕ → KvError
  bad_rank shape_mismatch : List ℕ → List ℕ → KvError
  head_mismatch head_dim_mismatch capacity_exceeded : ℕ → ℕ → ℕ → KvError
  tensor_failed : KvError

module _ {Tensor : Type 0} where
  unfoldable pub new : ℕ → ℕ → ℕ → ℕ → ℕ → SlabKvCache Tensor
  new max_seqs max_seq_len num_layers n_heads head_dim = record {
    max_seqs = max_seqs;
    max_seq_len = max_seq_len;
    num_layers = num_layers;
    n_heads = n_heads;
    head_dim = head_dim;
    free_slots = range_from 0 max_seqs;
    allocated = [];
    next_generations = replicate max_seqs 0;
    layers = [];
  }

  unfoldable pub allocated_slots : SlabKvCache Tensor → ℕ
  allocated_slots c = length c.allocated

  unfoldable pub capacity_shape : SlabKvCache Tensor → ℕ × ℕ × ℕ × ℕ × ℕ × ℕ
  capacity_shape c = (c.max_seqs, c.num_layers, 2, c.max_seq_len, c.n_heads, c.head_dim)

  unfoldable pub is_current_handle : SlabKvCache Tensor → KvHandle → Bool
  unfolding handle_eq
  is_current_handle c h = elim (lookup h.slot c.allocated) [ none ↦ false | some g ↦ handle_eq g h ]

  unfoldable pub has_room_for : SlabKvCache Tensor → ℕ → ℕ → Bool
  has_room_for c prompt_len max_new =
      is_some_and (checked_add prompt_len max_new) (λ tokens. leb tokens c.max_seq_len)
      && not (is_empty c.free_slots)

  -- `allocate` once `pop_front` has given a slot: `next_generations[slot]` is the indexing that
  -- panics out of range.
  unfoldable pub occupy :
      SlabKvCache Tensor → ℕ → ℕ → List ℕ → Result KvError (KvHandle × SlabKvCache Tensor)
  occupy c slot capacity rest = elim (get_elem? c.next_generations slot) [
    | none ↦ panic
    | some g ↦
        let handle : KvHandle = record {
          slot = slot;
          capacity_tokens = capacity;
          generation = wrapping_add g 1;
        } in
        ok (
          handle,
          record c {
            free_slots = rest;
            allocated = insert slot handle c.allocated;
            next_generations = set c.next_generations slot (wrapping_add g 1);
            layers = insert slot (replicate c.num_layers none) c.layers;
          },
        )
  ]

  unfoldable pub allocate :
      SlabKvCache Tensor → ℕ → ℕ → Result KvError (KvHandle × SlabKvCache Tensor)
  unfolding has_room_for occupy
  allocate c prompt_len max_new =
      if has_room_for c prompt_len max_new
      then elim c.free_slots [
        | [] ↦ err no_free_slots
        | slot ∷ rest ↦ occupy c slot (prompt_len + max_new) rest
      ]
      else err (no_room prompt_len max_new c.max_seq_len)

  unfoldable pub free : SlabKvCache Tensor → KvHandle → SlabKvCache Tensor
  unfolding is_current_handle
  free c h =
      if is_current_handle c h
      then record c {
        free_slots = c.free_slots ++ (h.slot ∷ []);
        allocated = remove h.slot c.allocated;
        layers = remove h.slot c.layers;
      }
      else c

-- `dims[i]`, read only after a test that the shape has three dimensions.
abbrev pub dim_at : List ℕ → ℕ → ℕ
dim_at [] i = 0
dim_at (d ∷ ds) zero = d
dim_at (d ∷ ds) (suc i) = dim_at ds i

module _ (T : Tensors) where
  open T use {Tensor, dims, zeros}

  -- The shape checks of `write`, in their order: the error of the first that fails.
  unfoldable pub shape_error : SlabKvCache Tensor → KvHandle → List ℕ → List ℕ → Option KvError
  shape_error c h k v =
      if not (length k == 3) || not (length v == 3)
      then some (bad_rank k v)
      else if not (list_eq k v)
      then some (shape_mismatch k v)
      else if not (dim_at k 0 == c.n_heads) || not (dim_at v 0 == c.n_heads)
      then some (head_mismatch c.n_heads (dim_at k 0) (dim_at v 0))
      else if not (dim_at k 2 == c.head_dim) || not (dim_at v 2 == c.head_dim)
      then some (head_dim_mismatch c.head_dim (dim_at k 2) (dim_at v 2))
      else if ltb h.capacity_tokens (dim_at k 1) || ltb h.capacity_tokens (dim_at v 1)
      then some (capacity_exceeded h.capacity_tokens (dim_at k 1) (dim_at v 1))
      else none

  -- `layers[layer] = Some((k, v))` and the checks before it, for the slot's storage.
  unfoldable pub store :
      SlabKvCache Tensor
      → KvHandle
      → ℕ
      → Tensor
      → Tensor
      → Layers Tensor
      → Result KvError (SlabKvCache Tensor)
  unfolding shape_error
  store c h layer k v ls = elim (shape_error c h (dims k) (dims v)) [
    | some e ↦ err e
    | none ↦
        if ltb layer (length ls)
        then ok (record c { layers = insert h.slot (set ls layer (some (k, v))) c.layers })
        else panic
  ]

  unfoldable pub write :
      SlabKvCache Tensor → KvHandle → ℕ → Tensor → Tensor → Result KvError (SlabKvCache Tensor)
  unfolding is_current_handle store
  write c h layer k v =
      if not (is_current_handle c h)
      then err (stale_write h.slot)
      else if leb c.num_layers layer
      then err (layer_out_of_range layer c.num_layers)
      else elim (lookup h.slot c.layers) [
        | none ↦ err (missing_storage h.slot)
        | some ls ↦ store c h layer k v ls
      ]

  -- The two fresh tensors of no tokens that `read` makes for a layer with nothing stored.
  unfoldable pub empty_pair : SlabKvCache Tensor → Result KvError (Tensor × Tensor)
  empty_pair c = elim (zeros (c.n_heads ∷ 0 ∷ c.head_dim ∷ [])) [
    | none ↦ err tensor_failed
    | some k ↦ elim (zeros (c.n_heads ∷ 0 ∷ c.head_dim ∷ [])) [
      | none ↦ err tensor_failed
      | some v ↦ ok (k, v)
    ]
  ]

  unfoldable pub read : SlabKvCache Tensor → KvHandle → ℕ → Result KvError (Tensor × Tensor)
  unfolding is_current_handle empty_pair
  read c h layer =
      if not (is_current_handle c h)
      then err (stale_read h.slot)
      else if leb c.num_layers layer
      then err (layer_out_of_range layer c.num_layers)
      else elim (lookup h.slot c.layers) [
        | none ↦ err (missing_storage h.slot)
        | some ls ↦ elim (get_elem? ls layer) [ some (some (k, v)) ↦ ok (k, v) | _ ↦ empty_pair c ]
      ]
