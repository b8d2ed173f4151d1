-- ===== src/KvCache/Refinement.antt =====
-- The cache as its clients see it: a map from live handles to their layers.
use hotbatch.Base.{
  ℕ, zero, suc, lookup-none, ◌<◌, ◌≡◌, refl, sym, subst, ◌≤◌, List, [], ◌∷◌, ◌≢◌, inl, inr, true,
  false, Option, none, some, arith, ltb, if◌then◌else◌, Bool-cases, Option-cases, length, get_elem?,
  get_elem?-in_range, get_elem?-set_self, get_elem?-set_ne, set, lookup, lookup-insert,
  lookup-remove, replicate, Result, ok, err,
}
use hotbatch.KvCache.Defs.{
  KvHandle, Tensors, SlabKvCache, KvError, stale_read, layer_out_of_range, Layers,
  is_current_handle, handle_eq, allocate, free, write, empty_pair, read,
}
use hotbatch.KvCache.Slots.{is_current_handle_iff, Allocated, allocate-Allocated}
use hotbatch.KvCache.Invariant.{IsSlab, Written, write-Written}
use hotbatch.KvCache.Handles.{Step, allocates, frees, writes, Step-IsSlab}

-- For a handle and a layer: `none` without one of the two, `some none` with nothing stored there.
abbrev pub View : Type 0 → Type 0
View Tensor = KvHandle → ℕ → Option (Option (Tensor × Tensor))

unfoldable pub view : {Tensor : Type 0} → SlabKvCache Tensor → View Tensor
unfolding is_current_handle
view c h layer =
    if is_current_handle c h
    then elim (lookup h.slot c.layers) [ none ↦ none | some ls ↦ get_elem? ls layer ]
    else none

-- The other handles are as they were.
abbrev pub SameBut : {Tensor : Type 0} → KvHandle → View Tensor → View Tensor → Type 0
SameBut h old new = (g : KvHandle) (layer : ℕ) → g ≢ h → new g layer ≡ old g layer

-- What a call is to make of the map, for the handle, the layer and the pair of the call itself. A new
-- handle was not there and opens with its layers empty.
pub record Opened {Tensor : Type 0} (num_layers : ℕ) (h : KvHandle) (old new : View Tensor)
    : Type 0 where
  pub fresh : (layer : ℕ) → old h layer ≡ none
  pub empty : (layer : ℕ) → new h layer ≡ (if ltb layer num_layers then some none else none)
  pub others : SameBut h old new

-- The handle is gone.
pub record Closed {Tensor : Type 0} (h : KvHandle) (old new : View Tensor) : Type 0 where
  pub gone : (layer : ℕ) → new h layer ≡ none
  pub others : SameBut h old new

-- The handle was live with that layer, which now has the pair.
pub record Replaced {Tensor : Type 0} (h : KvHandle) (layer : ℕ) (pair : Tensor × Tensor)
    (old new : View Tensor) : Type 0 where
  pub was : Option (Tensor × Tensor)
  pub live : old h layer ≡ some was
  pub stored : new h layer ≡ some (some pair)
  pub elsewhere : (other : ℕ) → other ≢ layer → new h other ≡ old h other
  pub others : SameBut h old new

handle_eq-ne : (h g : KvHandle) → g ≢ h → handle_eq h g ≡ false
unfolding handle_eq
handle_eq-ne h g ne = elim (Bool-cases (handle_eq h g)) [
  | inl same ↦ absurd (ne (ground arith))
  | inr other ↦ other
]

get_elem?-replicated :
    {A : Type 0} (n i : ℕ) (a : A)
    → get_elem? (replicate n a) i ≡ (if ltb i n then some a else none)
get_elem?-replicated zero i a = ground arith
get_elem?-replicated (suc n) zero a = ground arith
get_elem?-replicated (suc n) (suc i) a = ground (arith, get_elem?-replicated n i a)

get_elem?-below :
    {A : Type 0} (xs : List A) (i : ℕ) (a : A) → get_elem? xs i ≡ some a → i < length xs
get_elem?-below [] i a e = absurd (ground arith)
get_elem?-below (x ∷ xs) zero a e = omega arith
get_elem?-below (x ∷ xs) (suc i) a e = omega (arith, get_elem?-below xs i a e)

module _ (T : Tensors) where
  open T use {Tensor}

  -- What `read` answers for an entry of the view: an error, the empty pair, or what is stored.
  abbrev pub Shows :
      SlabKvCache Tensor
      → Option (Option (Tensor × Tensor))
      → Result KvError (Tensor × Tensor)
      → Type 0
  Shows c none r = (e : KvError) × (r ≡ err e)
  Shows c (some none) r = r ≡ empty_pair T c
  Shows c (some (some pair)) r = r ≡ ok pair

  vacant :
      (c : SlabKvCache Tensor) (p m : ℕ) (h : KvHandle) (c' : SlabKvCache Tensor)
      → IsSlab T c
      → Allocated c p m h c'
      → lookup h.slot c.allocated ≡ none
  vacant c p m h c' s a =
      lookup-none h.slot c.allocated (ground (arith, a.front, s.partition.once h.slot))

  opens :
      (c : SlabKvCache Tensor) (p m : ℕ) (h : KvHandle) (c' : SlabKvCache Tensor)
      → IsSlab T c
      → allocate c p m ≡ ok (h, c')
      → Opened c.num_layers h (view c) (view c')
  unfolding view is_current_handle handle_eq
  opens c p m h c' s e =
      let a = allocate-Allocated c p m h c' e in
      record {
        fresh = λ layer. ground (arith, vacant c p m h c' s a);
        empty = λ layer. ground (
          arith,
          a.after,
          lookup-insert h.slot h.slot h c.allocated,
          lookup-insert h.slot h.slot (replicate c.num_layers none) c.layers,
          get_elem?-replicated {A = Option (Tensor × Tensor)} c.num_layers layer none,
        );
        others = λ g layer ne. ground (
          arith,
          a.after,
          vacant c p m h c' s a,
          handle_eq-ne h g ne,
          lookup-insert h.slot g.slot h c.allocated,
          lookup-insert h.slot g.slot (replicate c.num_layers none) c.layers,
        );
      }

  closes : (c : SlabKvCache Tensor) (h : KvHandle) → Closed h (view c) (view (free c h))
  unfolding view free is_current_handle
  closes c h = elim (Bool-cases (is_current_handle c h)) [
    | inl current ↦ record {
      gone = λ layer. ground (arith, current, lookup-remove h.slot h.slot c.allocated);
      others = λ g layer ne. ground (
        arith,
        current,
        is_current_handle_iff c h current,
        handle_eq-ne h g ne,
        lookup-remove h.slot g.slot c.allocated,
        lookup-remove h.slot g.slot c.layers,
      );
    }
    | inr stale ↦ record {
      gone = λ layer. ground (arith, stale);
      others = λ g layer ne. ground (arith, stale);
    }
  ]

  replaces :
      (c : SlabKvCache Tensor) (h : KvHandle) (layer : ℕ) (k v : Tensor) (c' : SlabKvCache Tensor)
      → IsSlab T c
      → write T c h layer k v ≡ ok c'
      → Replaced h layer (k, v) (view c) (view c')
  unfolding view is_current_handle handle_eq
  replaces c h layer k v c' s e =
      let w : Written T c h layer k v c' = write-Written T c h layer k v c' e in
      let full = (s.stored h.slot h w.old w.current w.storage).0 in
      let (was, found) = get_elem?-in_range w.old layer (ground (arith, full, w.in_range)) in
      let inserted = lookup-insert h.slot h.slot (set w.old layer (some (k, v))) c.layers in
      let elsewhere : SameBut h (view c) (view c') = λ g other ne. ground (
        arith,
        w.after,
        w.current,
        handle_eq-ne h g ne,
        lookup-insert h.slot g.slot (set w.old layer (some (k, v))) c.layers,
      ) in
      record {
        was = was;
        live = ground (arith, w.current, w.storage, found);
        stored = ground (
          arith,
          w.after,
          w.current,
          inserted,
          full,
          w.in_range,
          get_elem?-set_self w.old layer (some (k, v)),
        );
        elsewhere = λ other ne. ground (
          arith,
          w.after,
          w.current,
          w.storage,
          inserted,
          ne,
          get_elem?-set_ne w.old layer other (some (k, v)),
        );
        others = elsewhere;
      }

  shown :
      (c : SlabKvCache Tensor) (h : KvHandle) (layer : ℕ) (ls : Layers Tensor)
      (entry : Option (Option (Tensor × Tensor)))
      → is_current_handle c h ≡ true
      → lookup h.slot c.layers ≡ some ls
      → length ls ≡ c.num_layers
      → get_elem? ls layer ≡ entry
      → Shows c entry (read T c h layer)
  unfolding read
  shown c h layer ls none current found full e =
      let over : c.num_layers ≤ layer = ground (arith, e, full, get_elem?-in_range ls layer) in
      (layer_out_of_range layer c.num_layers, ground (arith, current, over))
  shown c h layer ls (some none) current found full e =
      let below = get_elem?-below ls layer none e in ground (arith, current, found, full, e, below)
  shown c h layer ls (some (some (k, v))) current found full e =
      let below = get_elem?-below ls layer (some (k, v)) e in
      ground (arith, current, found, full, e, below)

  reads :
      (c : SlabKvCache Tensor) (h : KvHandle) (layer : ℕ)
      → IsSlab T c
      → Shows c (view c h layer) (read T c h layer)
  unfolding view read
  reads c h layer s = elim (Bool-cases (is_current_handle c h)) [
    | inr stale ↦ rw (stale, view, read) (stale_read h.slot, refl)
    | inl current ↦ elim (Option-cases (lookup h.slot c.layers)) [
      | inl missing ↦
          absurd (ground (arith, s.kept h.slot missing, is_current_handle_iff c h current))
      | inr (ls, found) ↦
          let entry : view c h layer ≡ get_elem? ls layer = ground (arith, current, found) in
          subst (λ o. Shows c o (read T c h layer)) (sym entry)
            (shown c h layer ls (get_elem? ls layer) current found
              (s.stored h.slot h ls (is_current_handle_iff c h current) found).0 refl)
    ]
  ]

  -- The specification of a call.
  abbrev pub SpecStep : {c c' : SlabKvCache Tensor} → Step T c c' → Type 0
  SpecStep {c = c} {c' = c'} (allocates p m h e) = Opened c.num_layers h (view c) (view c')
  SpecStep {c = c} {c' = c'} (frees h e) = Closed h (view c) (view c')
  SpecStep {c = c} {c' = c'} (writes h layer k v e) = Replaced h layer (k, v) (view c) (view c')

  refined : (c c' : SlabKvCache Tensor) → IsSlab T c → (step : Step T c c') → SpecStep step
  refined c c' s (allocates p m h e) = opens c p m h c' s e
  refined c c' s (frees h e) = subst (λ d. Closed h (view c) (view d)) (sym e) (closes c h)
  refined c c' s (writes h layer k v e) = replaces c h layer k v c' s e

  -- The cache is a map from live handles to layers, and on a well-formed cache every call that changes
  -- it does to the map what the call asks for: an allocation that succeeds opens the handle that it
  -- returns, which was not live, with all its layers empty; after `free` the handle that it was called
  -- with is not live; a write that succeeds puts its own pair into its own layer of its handle, which
  -- was live, and leaves the other layers. None of them touches any other handle, not even one of the
  -- same slot. And in the cache after the call `read` answers for every handle and layer what the map
  -- has there.
  pub Step-refines :
      (c c' : SlabKvCache Tensor)
      → IsSlab T c
      → (step : Step T c c')
      → SpecStep step
        × ((h : KvHandle) (layer : ℕ) → Shows c' (view c' h layer) (read T c' h layer))
  Step-refines c c' s step =
      (refined c c' s step, λ h layer. reads c' h layer (Step-IsSlab T c c' step s))
