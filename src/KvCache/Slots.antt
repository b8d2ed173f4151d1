-- ===== src/KvCache/Slots.antt =====
-- The bookkeeping of slots: each is free or allocated, never both, and every operation keeps it so.
use hotbatch.Base.{
  ℕ, ◌+◌, ◌≤◌, ◌<◌, ◌≡◌, refl, inl, inr, true, none, some, List, [], ◌∷◌, arith, ltb, if◌then◌else◌,
  Bool-cases, Option-cases, length, count, length-set, get_elem?, get_elem?-set_self,
  get_elem?-set_ne, set, lookup, insert, keys, lookup-insert, count-keys-remove, length-remove,
  replicate, ok,
}
use hotbatch.Base.Checked.{word, wrapping_add}
use hotbatch.KvCache.Defs.{KvHandle, SlabKvCache, is_current_handle, has_room_for, occupy, allocate}

module _ {Tensor : Type 0} where
  -- A slot of the pool is once among the free slots or once among the allocated ones.
  pub record IsPartition (c : SlabKvCache Tensor) : Type 0 where
    pub once :
        (i : ℕ)
        → count i c.free_slots + count i (keys c.allocated) ≡ (if ltb i c.max_seqs then 1 else 0)
    pub total : length c.free_slots + length c.allocated ≡ c.max_seqs
    pub counters : length c.next_generations ≡ c.max_seqs

  -- The handle on record for a slot carries that slot and its latest generation, and fits the limit.
  pub record IsIssued (c : SlabKvCache Tensor) (i : ℕ) (h : KvHandle) : Type 0 where
    pub same_slot : h.slot ≡ i
    pub fits : h.capacity_tokens ≤ c.max_seq_len
    pub latest : get_elem? c.next_generations i ≡ some h.generation

  pub is_current_handle_iff :
      (c : SlabKvCache Tensor) (h : KvHandle)
      → is_current_handle c h ≡ true
      → lookup h.slot c.allocated ≡ some h
  unfolding is_current_handle
  is_current_handle_iff c h e = elim (Option-cases (lookup h.slot c.allocated)) [
    | inl missing ↦ ground arith
    | inr (g, found) ↦ ground arith
  ]

  -- What a successful `allocate` did.
  pub record Allocated (c : SlabKvCache Tensor) (prompt_len max_new : ℕ) (h : KvHandle)
      (c' : SlabKvCache Tensor) : Type 0 where
    pub rest : List ℕ
    pub old : ℕ
    pub front : c.free_slots ≡ h.slot ∷ rest
    pub counter : get_elem? c.next_generations h.slot ≡ some old
    pub fits : prompt_len + max_new ≤ c.max_seq_len
    pub handle : h ≡ record {
      slot = h.slot;
      capacity_tokens = prompt_len + max_new;
      generation = wrapping_add old 1;
    }
    pub after : c' ≡ record c {
      free_slots = rest;
      allocated = insert h.slot h c.allocated;
      next_generations = set c.next_generations h.slot (wrapping_add old 1);
      layers = insert h.slot (replicate c.num_layers none) c.layers;
    }

  occupy-Allocated :
      (c : SlabKvCache Tensor) (p m slot : ℕ) (rest : List ℕ) (h : KvHandle)
      (c' : SlabKvCache Tensor)
      → c.free_slots ≡ slot ∷ rest
      → p + m ≤ c.max_seq_len
      → occupy c slot (p + m) rest ≡ ok (h, c')
      → Allocated c p m h c'
  unfolding occupy
  occupy-Allocated c p m slot rest h c' f l e =
      elim (Option-cases (get_elem? c.next_generations slot)) [
        | inl missing ↦ absurd (ground arith)
        | inr (g, found) ↦ record {
          rest = rest;
          old = g;
          front = ground arith;
          counter = ground arith;
          fits = l;
          handle = ground arith;
          after = ground arith;
        }
      ]

  pub has_room_for-fits :
      (c : SlabKvCache Tensor) (p m : ℕ)
      → has_room_for c p m ≡ true
      → (p + m < word) × (p + m ≤ c.max_seq_len)
  unfolding has_room_for
  has_room_for-fits c p m e = ground arith

  allocate_front :
      (c : SlabKvCache Tensor) (p m : ℕ) (fs : List ℕ) (h : KvHandle) (c' : SlabKvCache Tensor)
      → c.free_slots ≡ fs
      → has_room_for c p m ≡ true
      → allocate c p m ≡ ok (h, c')
      → Allocated c p m h c'
  unfolding allocate
  allocate_front c p m [] h c' f r e = absurd (ground arith)
  allocate_front c p m (slot ∷ rest) h c' f r e =
      occupy-Allocated c p m slot rest h c' f (has_room_for-fits c p m r).1 (ground arith)

  pub allocate-Allocated :
      (c : SlabKvCache Tensor) (p m : ℕ) (h : KvHandle) (c' : SlabKvCache Tensor)
      → allocate c p m ≡ ok (h, c')
      → Allocated c p m h c'
  unfolding allocate
  allocate-Allocated c p m h c' e = elim (Bool-cases (has_room_for c p m)) [
    | inl room ↦ allocate_front c p m c.free_slots h c' refl room e
    | inr full ↦ absurd (ground arith)
  ]

  module _ {c c' : SlabKvCache Tensor} {p m : ℕ} {h : KvHandle} (a : Allocated c p m h c') where
    open a use {rest, old, front, counter, fits, handle, after}

    -- The front slot was in no entry, and its counter is in range.
    slot_free : IsPartition c → (count h.slot (keys c.allocated) ≡ 0) × (h.slot < c.max_seqs)
    slot_free part = ground (arith, part.once h.slot)

    pub allocate-IsPartition : IsPartition c → IsPartition c'
    allocate-IsPartition part = record {
      once = λ i.
          ground (arith, part.once i, part.once h.slot, count-keys-remove h.slot i c.allocated);
      total = ground (arith, part.total, slot_free part, length-remove h.slot c.allocated);
      counters =
          ground (arith, part.counters, length-set c.next_generations h.slot (wrapping_add old 1));
    }

    pub allocate-IsIssued :
        IsPartition c
        → ((i : ℕ) (g : KvHandle) → lookup i c.allocated ≡ some g → IsIssued c i g)
        → (i : ℕ) (g : KvHandle) → lookup i c'.allocated ≡ some g
        → IsIssued c' i g
    allocate-IsIssued part issued i g e = ground (
      arith,
      slot_free part,
      part.counters,
      issued i g,
      lookup-insert h.slot i h c.allocated,
      get_elem?-set_self c.next_generations h.slot (wrapping_add old 1),
      get_elem?-set_ne c.next_generations h.slot i (wrapping_add old 1),
    )
