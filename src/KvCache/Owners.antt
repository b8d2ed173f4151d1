-- ===== src/KvCache/Owners.antt =====
-- Who holds the slots: a list of handles that accounts for every allocated slot exactly once.
use hotbatch.Base.{
  ℕ, ◌+◌, ◌≤◌, ◌≡◌, refl, sym, ap, ◌∙◌, subst, true, some, List, [], ◌∷◌, ◌++◌, arith, ◌==◌,
  if◌then◌else◌, length, length-append, count, count-append, All, All-append, lookup, remove,
  insert, keys, lookup-remove, lookup-insert, count-keys-remove, length-remove, ok,
}
use hotbatch.KvCache.Defs.{KvHandle, Tensors, SlabKvCache, is_current_handle, allocate, free}
use hotbatch.KvCache.Slots.{Allocated, allocate-Allocated}
use hotbatch.KvCache.Invariant.{IsSlab, allocate-IsSlab, freed_current}

abbrev pub slots : List KvHandle → List ℕ
slots [] = []
slots (h ∷ hs) = h.slot ∷ slots hs

slots-append : (xs ys : List KvHandle) → slots (xs ++ ys) ≡ slots xs ++ slots ys
slots-append [] ys = refl
slots-append (x ∷ xs) ys = ap (◌∷◌ x.slot) (slots-append xs ys)

-- Each handle is the one on record for its slot.
abbrev pub AllCurrent : List (ℕ × KvHandle) → List KvHandle → Type 0
AllCurrent m = All (λ h. lookup h.slot m ≡ some h)

AllCurrent-remove :
    (m : List (ℕ × KvHandle)) (i : ℕ) (hs : List KvHandle)
    → count i (slots hs) ≡ 0
    → AllCurrent m hs
    → AllCurrent (remove i m) hs
AllCurrent-remove m i [] z a = tt
AllCurrent-remove m i (h ∷ hs) z a =
    (ground (arith, lookup-remove i h.slot m, a.0), AllCurrent-remove m i hs (ground arith) a.1)

AllCurrent-insert :
    (m : List (ℕ × KvHandle)) (h : KvHandle) (hs : List KvHandle)
    → count h.slot (slots hs) ≡ 0
    → AllCurrent m hs
    → AllCurrent (insert h.slot h m) hs
AllCurrent-insert m h [] z a = tt
AllCurrent-insert m h (g ∷ hs) z a = (
  ground (arith, lookup-insert h.slot g.slot h m, a.0),
  AllCurrent-insert m h hs (ground arith) a.1,
)

AllCurrent-split :
    (m : List (ℕ × KvHandle)) (xs : List KvHandle) (h : KvHandle) (ys : List KvHandle)
    → AllCurrent m (xs ++ (h ∷ ys))
    → AllCurrent m (xs ++ ys) × (lookup h.slot m ≡ some h)
AllCurrent-split m [] h ys a = (a.1, a.0)
AllCurrent-split m (x ∷ xs) h ys a = let r = AllCurrent-split m xs h ys a.1 in ((a.0, r.0), r.1)

module _ (T : Tensors) where
  open T use {Tensor}

  pub record Owns (c : SlabKvCache Tensor) (hs : List KvHandle) : Type 0 where
    pub slab : IsSlab T c
    pub current : AllCurrent c.allocated hs
    pub exact : (i : ℕ) → count i (slots hs) ≡ count i (keys c.allocated)
    pub many : length hs ≡ length c.allocated

  is_current_of_lookup :
      (c : SlabKvCache Tensor) (h : KvHandle)
      → lookup h.slot c.allocated ≡ some h
      → is_current_handle c h ≡ true
  unfolding is_current_handle
  is_current_of_lookup c h e = ground arith

  -- No slot is counted twice.
  Owns-once :
      (c : SlabKvCache Tensor) (hs : List KvHandle) → Owns c hs → (i : ℕ) → count i (slots hs) ≤ 1
  Owns-once c hs o i = ground (arith, o.exact i, o.slab.partition.once i)

  -- A holder that releases its handle leaves the others as owners.
  pub Owns-free :
      (c : SlabKvCache Tensor) (xs : List KvHandle) (h : KvHandle) (ys : List KvHandle)
      → Owns c (xs ++ (h ∷ ys))
      → Owns (free c h) (xs ++ ys)
  unfolding free
  Owns-free c xs h ys o = rw held (record {
    slab = freed_current T c h o.slab split.1;
    current =
        AllCurrent-remove c.allocated h.slot (xs ++ ys) (ground (arith, once, counts h.slot))
          split.0;
    exact = λ i.
        ground
          (arith, o.exact i, once, counts i, counts h.slot, count-keys-remove h.slot i c.allocated);
    many = ground (
      arith,
      o.many,
      o.exact h.slot,
      once,
      counts h.slot,
      length-append xs ys,
      length-append xs (h ∷ ys),
      length-remove h.slot c.allocated,
    );
  })
    where
      split : AllCurrent c.allocated (xs ++ ys) × (lookup h.slot c.allocated ≡ some h)
      split = AllCurrent-split c.allocated xs h ys o.current

      held : is_current_handle c h ≡ true
      held = is_current_of_lookup c h split.1

      once : count h.slot (slots (xs ++ (h ∷ ys))) ≤ 1
      once = Owns-once c (xs ++ (h ∷ ys)) o h.slot

      counts :
          (i : ℕ)
          → count i (slots (xs ++ (h ∷ ys)))
            ≡ (if h.slot == i then 1 else 0) + count i (slots (xs ++ ys))
      counts i = ground (
        arith,
        slots-append xs (h ∷ ys),
        slots-append xs ys,
        count-append i (slots xs) (slots (h ∷ ys)),
        count-append i (slots xs) (slots ys),
      )

  -- A new handle joins the owners.
  pub Owns-allocate :
      (c : SlabKvCache Tensor) (hs : List KvHandle) (p m : ℕ) (h : KvHandle)
      (c' : SlabKvCache Tensor)
      → Owns c hs
      → allocate c p m ≡ ok (h, c')
      → Owns c' (hs ++ (h ∷ []))
  Owns-allocate c hs p m h c' o e = record {
    slab = allocate-IsSlab T c p m h c' o.slab e;
    current =
        subst (λ (d : SlabKvCache Tensor). AllCurrent d.allocated (hs ++ (h ∷ []))) (sym a.after)
          (All-append (λ g. lookup g.slot (insert h.slot h c.allocated) ≡ some g) hs (h ∷ [])
            (AllCurrent-insert c.allocated h hs (ground (arith, fresh, o.exact h.slot)) o.current)
            (ground (arith, lookup-insert h.slot h.slot h c.allocated), tt));
    exact = λ i. ground (
      arith,
      a.after,
      o.exact i,
      fresh,
      slots-append hs (h ∷ []),
      count-append i (slots hs) (h.slot ∷ []),
      count-keys-remove h.slot i c.allocated,
    );
    many = ground (
      arith,
      a.after,
      o.many,
      fresh,
      length-append hs (h ∷ []),
      length-remove h.slot c.allocated,
    );
  }
    where
      a : Allocated c p m h c'
      a = allocate-Allocated c p m h c' e

      fresh : count h.slot (keys c.allocated) ≡ 0
      fresh = ground (arith, a.front, o.slab.partition.once h.slot)

  -- The same slots, another state of the storage.
  pub Owns-same :
      (c c' : SlabKvCache Tensor) (hs : List KvHandle)
      → IsSlab T c'
      → c'.allocated ≡ c.allocated
      → Owns c hs
      → Owns c' hs
  Owns-same c c' hs v e o = record {
    slab = v;
    current = subst (λ m. AllCurrent m hs) (sym e) o.current;
    exact = λ i. o.exact i ∙ ap (λ m. count i (keys m)) (sym e);
    many = o.many ∙ ap length (sym e);
  }
