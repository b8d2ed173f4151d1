-- ===== src/KvCache/Storage.antt =====
-- What the cache stores for a sequence: `read` after `write`, after `allocate`, and of another slot.
use hotbatch.Base.{
  ℕ, ◌≤◌, ◌<◌, ◌≡◌, ◌≢◌, ◌⊎◌, inl, inr, true, false, Option, none, some, arith, leb, Bool-cases,
  Option-cases, length, get_elem?-set_self, get_elem?-set_ne, get_elem?-replicate, set, lookup,
  insert, lookup-insert, replicate, ok, err,
}
use hotbatch.KvCache.Defs.{
  KvHandle, Tensors, SlabKvCache, KvError, stale_write, layer_out_of_range, is_current_handle,
  allocate, shape_error, write, empty_pair, read,
}
use hotbatch.KvCache.Slots.{is_current_handle_iff, Allocated, allocate-Allocated}
use hotbatch.KvCache.Invariant.{IsSlab, Written, write-Written}

module _ (T : Tensors) where
  open T use {Tensor, dims}

  -- On a well-formed cache `write` never panics and never finds its storage missing: it refuses a
  -- stale handle first, then a layer out of range, then a wrong shape, and otherwise succeeds.
  pub write_total :
      (c : SlabKvCache Tensor) (h : KvHandle) (layer : ℕ) (k v : Tensor)
      → IsSlab T c
      → ((is_current_handle c h ≡ false) × (write T c h layer k v ≡ err (stale_write h.slot)))
        ⊎ ((is_current_handle c h ≡ true)
            × (c.num_layers ≤ layer)
            × (write T c h layer k v ≡ err (layer_out_of_range layer c.num_layers)))
        ⊎ ((e : KvError) × (is_current_handle c h ≡ true)
            × (layer < c.num_layers)
            × (shape_error T c h (dims k) (dims v) ≡ some e)
            × (write T c h layer k v ≡ err e))
        ⊎ ((c' : SlabKvCache Tensor) × (is_current_handle c h ≡ true)
            × (layer < c.num_layers)
            × (shape_error T c h (dims k) (dims v) ≡ none)
            × (write T c h layer k v ≡ ok c'))
  unfolding write
  write_total c h layer k v s = elim (Bool-cases (is_current_handle c h)) [
    | inl current ↦ elim (Bool-cases (leb c.num_layers layer)) [
      | inl over ↦ inr (inl (current, ground arith, ground arith))
      | inr below ↦ elim (Option-cases (lookup h.slot c.layers)) [
        | inl missing ↦
            absurd (ground (arith, s.kept h.slot missing, is_current_handle_iff c h current))
        | inr (ls, found) ↦
            let full : length ls ≡ c.num_layers =
              (s.stored h.slot h ls (is_current_handle_iff c h current) found).0 in
            elim (Option-cases (shape_error T c h (dims k) (dims v))) [
              | inl fine ↦ inr (
                  inr (
                    inr (
                      record c { layers = insert h.slot (set ls layer (some (k, v))) c.layers },
                      current,
                      ground arith,
                      fine,
                      ground arith,
                    )))
              | inr (e, bad) ↦ inr (inr (inl (e, current, ground arith, bad, ground arith)))
            ]
      ]
    ]
    | inr stale ↦ inl (stale, ground arith)
  ]

  -- What is written for a layer is what is read there, through the same handle.
  pub read-write :
      (c : SlabKvCache Tensor) (h : KvHandle) (layer : ℕ) (k v : Tensor) (c' : SlabKvCache Tensor)
      → IsSlab T c
      → write T c h layer k v ≡ ok c'
      → read T c' h layer ≡ ok (k, v)
  unfolding read is_current_handle
  read-write c h layer k v c' s e = ground (
    arith,
    w.after,
    w.current,
    w.in_range,
    (s.stored h.slot h w.old w.current w.storage).0,
    lookup-insert h.slot h.slot (set w.old layer (some (k, v))) c.layers,
    get_elem?-set_self w.old layer (some (k, v)),
  )
    where
      w : Written T c h layer k v c'
      w = write-Written T c h layer k v c' e

  -- A write changes no other layer of its slot and no other slot: whatever handle is read there, the
  -- answer is as before, errors included.
  pub read-write_other :
      (c : SlabKvCache Tensor) (h g : KvHandle) (layer other : ℕ) (k v : Tensor)
      (c' : SlabKvCache Tensor)
      → write T c h layer k v ≡ ok c'
      → (g.slot ≢ h.slot) ⊎ (other ≢ layer)
      → read T c' g other ≡ read T c g other
  unfolding read is_current_handle empty_pair
  read-write_other c h g layer other k v c' e d = ground (
    arith,
    w.after,
    w.storage,
    d,
    lookup-insert h.slot g.slot (set w.old layer (some (k, v))) c.layers,
    get_elem?-set_ne w.old layer other (some (k, v)),
  )
    where
      w : Written T c h layer k v c'
      w = write-Written T c h layer k v c' e

  -- A sequence never sees what its slot's previous owner stored: right after `allocate` every layer
  -- reads as the empty pair.
  read-allocate :
      (c : SlabKvCache Tensor) (p m : ℕ) (h : KvHandle) (c' : SlabKvCache Tensor) (layer : ℕ)
      → allocate c p m ≡ ok (h, c')
      → layer < c.num_layers
      → read T c' h layer ≡ empty_pair T c
  unfolding read is_current_handle empty_pair
  read-allocate c p m h c' layer e l = ground (
    arith,
    l,
    a.after,
    lookup-insert h.slot h.slot h c.allocated,
    lookup-insert h.slot h.slot (replicate c.num_layers none) c.layers,
    get_elem?-replicate {A = Option (Tensor × Tensor)} c.num_layers layer none,
  )
    where
      a : Allocated c p m h c'
      a = allocate-Allocated c p m h c' e
