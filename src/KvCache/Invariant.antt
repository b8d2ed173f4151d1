-- ===== src/KvCache/Invariant.antt =====
-- The cache's well-formedness, and that every operation keeps it.
use hotbatch.Base.{
  ℕ, zero, suc, ◌≤◌, ◌<◌, ◌≡◌, refl, sym, ◌∙◌, ap, subst, inl, inr, Option, none, some, [], ◌∷◌,
  ◌++◌, arith, ◌==◌, Bool-cases, Option-cases, length, count-append, count-range_from,
  length-append, length-range_from, length-set, length-replicate, set, All, lookup, remove, insert,
  lookup-remove, lookup-insert, count-keys-remove, length-remove, lookup-some_count, replicate, ok,
  list_eq→eq, ==_iff,
}
use hotbatch.KvCache.Defs.{
  KvHandle, Tensors, Layers, SlabKvCache, new, is_current_handle, allocate, free, shape_error,
  store, write, dim_at,
}
use hotbatch.KvCache.Slots.{
  IsPartition, IsIssued, is_current_handle_iff, Allocated, allocate-Allocated, allocate-IsPartition,
  allocate-IsIssued,
}

module _ (T : Tensors) where
  open T use {Tensor, dims}

  -- A stored pair has the shape [heads, tokens, head_dim], with at most `capacity` tokens.
  abbrev pub IsEntry : ℕ → ℕ → ℕ → Option (Tensor × Tensor) → Type 0
  IsEntry heads dim capacity none = Unit {0}
  IsEntry heads dim capacity (some (k, v)) =
      (dims k ≡ dims v)
      × (length (dims k) ≡ 3)
      × (dim_at (dims k) 0 ≡ heads)
      × (dim_at (dims k) 2 ≡ dim)
      × (dim_at (dims k) 1 ≤ capacity)

  -- A slot's storage: an entry for each layer, all within the slot's capacity.
  abbrev pub IsStored : SlabKvCache Tensor → ℕ → Layers Tensor → Type 0
  IsStored c capacity ls =
      (length ls ≡ c.num_layers) × All (IsEntry c.n_heads c.head_dim capacity) ls

  pub record IsSlab (c : SlabKvCache Tensor) : Type 0 where
    pub partition : IsPartition c
    pub issued : (i : ℕ) (h : KvHandle) → lookup i c.allocated ≡ some h → IsIssued c i h
    pub stored :
        (i : ℕ) (h : KvHandle) (ls : Layers Tensor)
        → lookup i c.allocated ≡ some h
        → lookup i c.layers ≡ some ls
        → IsStored c h.capacity_tokens ls
    pub kept : (i : ℕ) → lookup i c.layers ≡ none → lookup i c.allocated ≡ none
    pub released : (i : ℕ) → lookup i c.allocated ≡ none → lookup i c.layers ≡ none

  IsStored-replicate :
      (c : SlabKvCache Tensor) (capacity : ℕ) → IsStored c capacity (replicate c.num_layers none)
  IsStored-replicate c capacity = (length-replicate c.num_layers none, all c.num_layers)
    where
      all : (n : ℕ) → All (IsEntry c.n_heads c.head_dim capacity) (replicate n none)
      all = elim [ zero ↦ tt | suc (n → ih) ↦ (tt, ih) ]

  -- A cache that `new` makes is well-formed.
  pub new-IsSlab : (seqs len layers heads dim : ℕ) → IsSlab (new seqs len layers heads dim)
  unfolding new
  new-IsSlab seqs len layers heads dim = record {
    partition = record {
      once = λ i. ground (arith, count-range_from i 0 seqs);
      total = ground (arith, length-range_from 0 seqs);
      counters = length-replicate seqs 0;
    };
    issued = λ i h e. absurd (ground arith);
    stored = λ i h ls e f. absurd (ground arith);
    kept = λ i e. refl;
    released = λ i e. refl;
  }

  -- Storage that is inserted for a slot is what is read there; the other slots keep theirs.
  IsStored-insert :
      (c : SlabKvCache Tensor) (slot : ℕ) (h : KvHandle) (fresh : Layers Tensor)
      → IsSlab c
      → IsStored c h.capacity_tokens fresh
      → (i : ℕ) (g : KvHandle) (ls : Layers Tensor) → lookup i (insert slot h c.allocated) ≡ some g
      → lookup i (insert slot fresh c.layers) ≡ some ls
      → IsStored c g.capacity_tokens ls
  IsStored-insert c slot h fresh v s i g ls e f = elim (Bool-cases (slot == i)) [
    | inl same ↦
        let eh : h ≡ g = ground (arith, lookup-insert slot i h c.allocated) in
        let el : fresh ≡ ls = ground (arith, lookup-insert slot i fresh c.layers) in
        rw (← eh, ← el) s
    | inr other ↦
        v.stored i g ls (ground (arith, lookup-insert slot i h c.allocated))
          (ground (arith, lookup-insert slot i fresh c.layers))
  ]

  -- `allocate` keeps the cache well-formed.
  pub allocate-IsSlab :
      (c : SlabKvCache Tensor) (p m : ℕ) (h : KvHandle) (c' : SlabKvCache Tensor)
      → IsSlab c
      → allocate c p m ≡ ok (h, c')
      → IsSlab c'
  allocate-IsSlab c p m h c' v e = subst IsSlab (sym a.after) (record {
    partition = subst IsPartition a.after (allocate-IsPartition a v.partition);
    issued = λ i g f.
        subst (λ d. IsIssued d i g) a.after
          (allocate-IsIssued a v.partition v.issued i g (rw a.after f));
    stored = λ i g ls.
        IsStored-insert c h.slot h (replicate c.num_layers none) v
          (IsStored-replicate c h.capacity_tokens) i g ls;
    kept = λ i f. ground (
      arith,
      v.kept i,
      lookup-insert h.slot i h c.allocated,
      lookup-insert h.slot i (replicate c.num_layers none) c.layers,
    );
    released = λ i f. ground (
      arith,
      v.released i,
      lookup-insert h.slot i h c.allocated,
      lookup-insert h.slot i (replicate c.num_layers none) c.layers,
    );
  })
    where
      a : Allocated c p m h c'
      a = allocate-Allocated c p m h c' e

  pub freed_current :
      (c : SlabKvCache Tensor) (h : KvHandle)
      → IsSlab c
      → lookup h.slot c.allocated ≡ some h
      → IsSlab (record c {
        free_slots = c.free_slots ++ (h.slot ∷ []);
        allocated = remove h.slot c.allocated;
        layers = remove h.slot c.layers;
      })
  freed_current c h v e = record {
    partition = record {
      once = λ i. ground (
        arith,
        part.once i,
        count-append i c.free_slots (h.slot ∷ []),
        count-keys-remove h.slot i c.allocated,
        lookup-some_count h.slot h c.allocated e,
      );
      total = ground (
        arith,
        part.total,
        part.once h.slot,
        length-append c.free_slots (h.slot ∷ []),
        length-remove h.slot c.allocated,
        lookup-some_count h.slot h c.allocated e,
      );
      counters = part.counters;
    };
    issued = λ i g f. ground (arith, v.issued i g, lookup-remove h.slot i c.allocated);
    stored = λ i g ls f k.
        v.stored i g ls (ground (arith, lookup-remove h.slot i c.allocated))
          (ground (arith, lookup-remove h.slot i c.layers));
    kept = λ i f.
        ground
          (arith, v.kept i, lookup-remove h.slot i c.allocated, lookup-remove h.slot i c.layers);
    released = λ i f.
        ground (
          arith,
          v.released i,
          lookup-remove h.slot i c.allocated,
          lookup-remove h.slot i c.layers,
        );
  }
    where
      part : IsPartition c
      part = v.partition

  -- `free` keeps the cache well-formed, whatever handle it is given.
  pub free-IsSlab : (c : SlabKvCache Tensor) (h : KvHandle) → IsSlab c → IsSlab (free c h)
  unfolding free
  free-IsSlab c h v = elim (Bool-cases (is_current_handle c h)) [
    | inl current ↦ rw current (freed_current c h v (is_current_handle_iff c h current))
    | inr stale ↦ rw stale v
  ]

  -- The shape checks of `write` are what an entry needs.
  shape_error-IsEntry :
      (c : SlabKvCache Tensor) (h : KvHandle) (k v : Tensor)
      → shape_error T c h (dims k) (dims v) ≡ none
      → IsEntry c.n_heads c.head_dim h.capacity_tokens (some (k, v))
  unfolding shape_error
  shape_error-IsEntry c h k v e = ground (arith, list_eq→eq (dims k) (dims v))

  All-set :
      (heads dim capacity : ℕ) (ls : Layers Tensor) (i : ℕ) (x : Option (Tensor × Tensor))
      → All (IsEntry heads dim capacity) ls
      → IsEntry heads dim capacity x
      → All (IsEntry heads dim capacity) (set ls i x)
  All-set heads dim capacity [] i x a e = tt
  All-set heads dim capacity (l ∷ ls) zero x a e = (e, a.1)
  All-set heads dim capacity (l ∷ ls) (suc i) x a e = (a.0, All-set heads dim capacity ls i x a.1 e)

  -- What a successful `write` did.
  pub record Written (c : SlabKvCache Tensor) (h : KvHandle) (layer : ℕ) (k v : Tensor)
      (c' : SlabKvCache Tensor) : Type 0 where
    pub old : Layers Tensor
    pub current : lookup h.slot c.allocated ≡ some h
    pub storage : lookup h.slot c.layers ≡ some old
    pub in_range : layer < c.num_layers
    pub shaped : IsEntry c.n_heads c.head_dim h.capacity_tokens (some (k, v))
    pub after : c' ≡ record c { layers = insert h.slot (set old layer (some (k, v))) c.layers }

  store-Written :
      (c : SlabKvCache Tensor) (h : KvHandle) (layer : ℕ) (k v : Tensor) (ls : Layers Tensor)
      (c' : SlabKvCache Tensor)
      → lookup h.slot c.allocated ≡ some h
      → lookup h.slot c.layers ≡ some ls
      → layer < c.num_layers
      → store T c h layer k v ls ≡ ok c'
      → Written c h layer k v c'
  unfolding store
  store-Written c h layer k v ls c' current storage l e =
      elim (Option-cases (shape_error T c h (dims k) (dims v))) [
        | inl fine ↦ record {
          old = ls;
          current = current;
          storage = storage;
          in_range = l;
          shaped = shape_error-IsEntry c h k v fine;
          after = ground arith;
        }
        | inr (x, bad) ↦ absurd (ground arith)
      ]

  pub write-Written :
      (c : SlabKvCache Tensor) (h : KvHandle) (layer : ℕ) (k v : Tensor) (c' : SlabKvCache Tensor)
      → write T c h layer k v ≡ ok c'
      → Written c h layer k v c'
  unfolding write
  write-Written c h layer k v c' e = elim (Bool-cases (is_current_handle c h)) [
    | inl current ↦ elim (Option-cases (lookup h.slot c.layers)) [
      | inl missing ↦ absurd (ground arith)
      | inr (ls, storage) ↦
          store-Written c h layer k v ls c' (is_current_handle_iff c h current) storage
            (ground arith) (ground arith)
    ]
    | inr stale ↦ absurd (ground arith)
  ]

  -- `write` keeps the cache well-formed.
  pub write-IsSlab :
      (c : SlabKvCache Tensor) (h : KvHandle) (layer : ℕ) (k v : Tensor) (c' : SlabKvCache Tensor)
      → IsSlab c
      → write T c h layer k v ≡ ok c'
      → IsSlab c'
  write-IsSlab c h layer k v c' s e = subst IsSlab (sym w.after) (record {
    partition = record {
      once = s.partition.once;
      total = s.partition.total;
      counters = s.partition.counters;
    };
    issued = λ i g f. ground (arith, s.issued i g);
    stored = λ i g ls f x. replaced i g ls f x;
    kept = λ i f.
        ground (arith, s.kept i, lookup-insert h.slot i (set w.old layer (some (k, v))) c.layers);
    released = λ i f. ground (
      arith,
      s.released i,
      w.current,
      lookup-insert h.slot i (set w.old layer (some (k, v))) c.layers,
    );
  })
    where
      w : Written c h layer k v c'
      w = write-Written c h layer k v c' e

      fits : IsStored c h.capacity_tokens (set w.old layer (some (k, v)))
      fits =
          let old = s.stored h.slot h w.old w.current w.storage in
          (
            length-set w.old layer (some (k, v)) ∙ old.0,
            All-set c.n_heads c.head_dim h.capacity_tokens w.old layer (some (k, v)) old.1 w.shaped,
          )

      replaced :
          (i : ℕ) (g : KvHandle) (ls : Layers Tensor)
          → lookup i c.allocated ≡ some g
          → lookup i (insert h.slot (set w.old layer (some (k, v))) c.layers) ≡ some ls
          → IsStored c g.capacity_tokens ls
      replaced i g ls f x = elim (Bool-cases (h.slot == i)) [
        | inl same ↦
            let eh : h ≡ g =
              ground
                (arith, w.current, ap (λ j. lookup j c.allocated) ((==_iff h.slot i).0 same)) in
            let el : set w.old layer (some (k, v)) ≡ ls =
              ground (arith, lookup-insert h.slot i (set w.old layer (some (k, v))) c.layers) in
            rw (← eh, ← el) fits
        | inr other ↦
            s.stored i g ls f
              (ground (arith, lookup-insert h.slot i (set w.old layer (some (k, v))) c.layers))
      ]
