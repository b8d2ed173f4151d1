-- ===== src/KvCache/Handles.antt =====
-- Which handles are accepted: when `allocate` succeeds, what it hands out, and that a handle that
-- was released is refused for good.
use hotbatch.Base.{
  ℕ, ◌+◌, ◌≤◌, ◌<◌, ◌≡◌, refl, sym, subst, ◌≢◌, ◌⊎◌, inl, inr, true, false, none, some, List, [],
  ◌∷◌, arith, ◌==◌, Bool-cases, length, get_elem?, get_elem?-in_range, get_elem?-set_self,
  get_elem?-set_ne, set, lookup, insert, lookup-remove, lookup-insert, replicate, ok, err,
  lookup-some_count,
}
use hotbatch.Base.Checked.{word, wrapping_add}
use hotbatch.KvCache.Defs.{
  KvHandle, Tensors, SlabKvCache, no_room, stale_write, stale_read, is_current_handle, has_room_for,
  allocate, free, write, read,
}
use hotbatch.KvCache.Slots.{
  IsPartition, IsIssued, is_current_handle_iff, Allocated, allocate-Allocated, allocate-IsPartition,
}
use hotbatch.KvCache.Invariant.{IsSlab, allocate-IsSlab, free-IsSlab, write-IsSlab, write-Written}

module _ {Tensor : Type 0} where
  module _ {c c' : SlabKvCache Tensor} {p m : ℕ} {h : KvHandle} (a : Allocated c p m h c') where
    open a use {rest, old, front, handle, after}

    allocated_current : is_current_handle c' h ≡ true
    unfolding is_current_handle
    allocated_current = ground (arith, lookup-insert h.slot h.slot h c.allocated)

    allocated_new : IsPartition c → is_current_handle c h ≡ false
    allocated_new part = elim (Bool-cases (is_current_handle c h)) [
      | inl current ↦ absurd (
          ground (
            arith,
            part.once h.slot,
            lookup-some_count h.slot h c.allocated (is_current_handle_iff c h current),
          ))
      | inr fresh ↦ fresh
    ]

    -- Every other handle is as current as before.
    allocated_other :
        (g : KvHandle)
        → IsPartition c
        → g.slot ≢ h.slot
        → is_current_handle c' g ≡ is_current_handle c g
    unfolding is_current_handle
    allocated_other g part ne = ground (arith, lookup-insert h.slot g.slot h c.allocated)

  occupies :
      (c : SlabKvCache Tensor) (p m : ℕ) (fs : List ℕ)
      → IsPartition c
      → c.free_slots ≡ fs
      → has_room_for c p m ≡ true
      → (h : KvHandle) × (c' : SlabKvCache Tensor) × (allocate c p m ≡ ok (h, c'))
  unfolding allocate
  occupies c p m [] part f room = absurd (ground arith)
  occupies c p m (slot ∷ rest) part f room =
      let (old, found) =
        get_elem?-in_range c.next_generations slot
          (ground (arith, part.once slot, part.counters)) in
      (
        record { slot = slot; capacity_tokens = p + m; generation = wrapping_add old 1 },
        record c {
          free_slots = rest;
          allocated =
              insert slot
                (record { slot = slot; capacity_tokens = p + m; generation = wrapping_add old 1 })
                c.allocated;
          next_generations = set c.next_generations slot (wrapping_add old 1);
          layers = insert slot (replicate c.num_layers none) c.layers;
        },
        ground arith,
      )

  -- `allocate` never panics. It grants a handle exactly when there is room: the handle was not
  -- current before, is current after, has the capacity asked for, and one more slot is in use; with
  -- no room it is the error that names the request and the limit.
  pub allocate_total :
      (c : SlabKvCache Tensor) (p m : ℕ)
      → IsPartition c
      → ((has_room_for c p m ≡ true)
          × ((h : KvHandle) × (c' : SlabKvCache Tensor) × (allocate c p m ≡ ok (h, c'))
              × (is_current_handle c h ≡ false)
              × (is_current_handle c' h ≡ true)
              × (h.capacity_tokens ≡ p + m)
              × (length c'.allocated ≡ length c.allocated + 1)))
        ⊎ ((has_room_for c p m ≡ false) × (allocate c p m ≡ err (no_room p m c.max_seq_len)))
  unfolding allocate
  allocate_total c p m part = elim (Bool-cases (has_room_for c p m)) [
    | inl room ↦
        let (h, c', e) = occupies c p m c.free_slots part refl room in
        let a : Allocated c p m h c' = allocate-Allocated c p m h c' e in
        inl (
          room,
          (
            h,
            c',
            e,
            allocated_new a part,
            allocated_current a,
            ground (arith, a.handle),
            ground (arith, a.after, a.front, part.total, (allocate-IsPartition a part).total),
          ),
        )
    | inr full ↦ inr (full, ground arith)
  ]

  -- A handle that is not current, and whose generation its slot's counter has reached.
  pub record IsRetired (c : SlabKvCache Tensor) (h : KvHandle) : Type 0 where
    pub stale : is_current_handle c h ≡ false
    pub counter : ℕ
    pub found : get_elem? c.next_generations h.slot ≡ some counter
    pub reached : h.generation ≤ counter

  -- No counter is about to wrap.
  abbrev pub HasGenerations : SlabKvCache Tensor → Type 0
  HasGenerations c = (i g : ℕ) → get_elem? c.next_generations i ≡ some g → g + 1 < word

  allocate-IsRetired :
      (c : SlabKvCache Tensor) (p m : ℕ) (g : KvHandle) (c' : SlabKvCache Tensor) (h : KvHandle)
      → IsPartition c
      → HasGenerations c
      → allocate c p m ≡ ok (g, c')
      → IsRetired c h
      → IsRetired c' h
  unfolding is_current_handle
  allocate-IsRetired c p m g c' h part few e r = elim (Bool-cases (h.slot == g.slot)) [
    | inl same ↦ record {
      stale = ground (
        arith,
        r.found,
        r.reached,
        few g.slot r.counter,
        a.after,
        a.handle,
        a.counter,
        lookup-insert g.slot h.slot g c.allocated,
      );
      counter = wrapping_add r.counter 1;
      found = ground (
        arith,
        r.found,
        a.after,
        a.counter,
        get_elem?-set_self c.next_generations g.slot (wrapping_add a.old 1),
        part.once g.slot,
        a.front,
        part.counters,
      );
      reached = ground (arith, r.reached, few g.slot r.counter, r.found);
    }
    | inr other ↦ record {
      stale = ground (arith, r.stale, a.after, lookup-insert g.slot h.slot g c.allocated);
      counter = r.counter;
      found = ground (
        arith,
        r.found,
        a.after,
        get_elem?-set_ne c.next_generations g.slot h.slot (wrapping_add a.old 1),
      );
      reached = r.reached;
    }
  ]
    where
      a : Allocated c p m g c'
      a = allocate-Allocated c p m g c' e

  free-IsRetired :
      (c : SlabKvCache Tensor) (g h : KvHandle) → IsRetired c h → IsRetired (free c g) h
  unfolding free is_current_handle
  free-IsRetired c g h r = record {
    stale = ground (arith, r.stale, lookup-remove g.slot h.slot c.allocated);
    counter = r.counter;
    found = ground (arith, r.found);
    reached = r.reached;
  }

  -- Releasing a current handle retires it.
  free_self-IsRetired :
      (c : SlabKvCache Tensor) (h : KvHandle)
      → ((i : ℕ) (g : KvHandle) → lookup i c.allocated ≡ some g → IsIssued c i g)
      → is_current_handle c h ≡ true
      → IsRetired (free c h) h
  unfolding free is_current_handle
  free_self-IsRetired c h issued e =
      let i : IsIssued c h.slot h = issued h.slot h (is_current_handle_iff c h e) in
      record {
        stale = ground (arith, e, lookup-remove h.slot h.slot c.allocated);
        counter = h.generation;
        found = ground (arith, e, i.latest);
        reached = omega arith;
      }

module _ (T : Tensors) where
  open T use {Tensor}

  -- One call of the cache's interface that changes it.
  pub data Step (c : SlabKvCache Tensor) (c' : SlabKvCache Tensor) : Type 0 where
    allocates : (p m : ℕ) (h : KvHandle) → allocate c p m ≡ ok (h, c') → Step c c'
    frees : (h : KvHandle) → c' ≡ free c h → Step c c'
    writes : (h : KvHandle) (layer : ℕ) (k v : Tensor) → write T c h layer k v ≡ ok c' → Step c c'

  -- If the call allocates, no generation counter is at its maximum.
  abbrev pub KeepsCount : {c c' : SlabKvCache Tensor} → Step c c' → Type 0
  KeepsCount {c = c} (allocates p m h e) = HasGenerations c
  KeepsCount (frees h e) = Unit
  KeepsCount (writes h layer k v e) = Unit

  -- Calls in which no generation counter wraps.
  pub data Steps (c : SlabKvCache Tensor) : SlabKvCache Tensor → Type 0 where
    here : Steps c c
    next : {d e : SlabKvCache Tensor} → Steps c d → (s : Step d e) → KeepsCount s → Steps c e

  -- Every call of the interface that changes the cache keeps it well-formed: an allocation that
  -- succeeds, also one at which a generation counter wraps, a release, with any handle, and a write
  -- that succeeds.
  pub Step-IsSlab : (c c' : SlabKvCache Tensor) → Step c c' → IsSlab T c → IsSlab T c'
  Step-IsSlab c c' (allocates p m h e) v = allocate-IsSlab T c p m h c' v e
  Step-IsSlab c c' (frees h e) v = subst (IsSlab T) (sym e) (free-IsSlab T c h v)
  Step-IsSlab c c' (writes h layer k v e) s = write-IsSlab T c h layer k v c' s e

  pub Steps-IsSlab : {c c' : SlabKvCache Tensor} → Steps c c' → IsSlab T c → IsSlab T c'
  Steps-IsSlab here v = v
  Steps-IsSlab (next {d = d} {e = e} r s few) v = Step-IsSlab d e s (Steps-IsSlab r v)

  Step-IsRetired :
      (c c' : SlabKvCache Tensor) (h : KvHandle) (s : Step c c')
      → KeepsCount s
      → IsSlab T c
      → IsRetired c h
      → IsRetired c' h
  unfolding is_current_handle
  Step-IsRetired c c' h (allocates p m g e) few v r =
      allocate-IsRetired c p m g c' h v.partition few e r
  Step-IsRetired c c' h (frees g e) few v r =
      subst (λ d. IsRetired d h) (sym e) (free-IsRetired c g h r)
  Step-IsRetired c c' h (writes g layer k x e) few v r =
      subst (λ d. IsRetired d h) (sym (write-Written T c g layer k x c' e).after)
        (record { stale = r.stale; counter = r.counter; found = r.found; reached = r.reached })

  Steps-IsRetired :
      {c c' : SlabKvCache Tensor} (h : KvHandle)
      → Steps c c'
      → IsSlab T c
      → IsRetired c h
      → IsRetired c' h
  Steps-IsRetired h here v r = r
  Steps-IsRetired h (next {d = d} {e = e} t s few) v r =
      Step-IsRetired d e h s few (Steps-IsSlab t v) (Steps-IsRetired h t v r)

  -- Once a current handle is released it is dead: after any later calls, while no generation counter
  -- is exhausted, reading and writing through it are refused as stale, and releasing it again
  -- changes nothing, also when its slot has been given to another sequence.
  pub released_handle_dead :
      (c c' : SlabKvCache Tensor) (h : KvHandle) (layer : ℕ) (k v : Tensor)
      → IsSlab T c
      → is_current_handle c h ≡ true
      → Steps (free c h) c'
      → (read T c' h layer ≡ err (stale_read h.slot))
        × (write T c' h layer k v ≡ err (stale_write h.slot))
        × (free c' h ≡ c')
  unfolding read write free
  released_handle_dead c c' h layer k v s e t =
      let r : IsRetired c' h =
        Steps-IsRetired h t (free-IsSlab T c h s) (free_self-IsRetired c h s.issued e) in
      (rw (r.stale), rw (r.stale), rw (r.stale))
