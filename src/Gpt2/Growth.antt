-- ===== src/Gpt2/Growth.antt =====
-- The attention over one token of each sequence adds that token to what the cache stores.
use hotbatch.Base.{
  ℕ, zero, suc, ◌+◌, ◌≡◌, sym, subst, ap, ◌∙◌, ◌≢◌, ◌⊎◌, inl, inr, some, List, [], ◌∷◌, arith, ◌==◌,
  get_elem?, Bool-cases, ok,
}
use hotbatch.KvCache.{KvHandle, Tensors, SlabKvCache, read, write, dim_at}
use hotbatch.KvCache.Invariant.{IsSlab, write-IsSlab}
use hotbatch.KvCache.Storage.{read-write, read-write_other}
use hotbatch.Gpt2.Steps.{Candle, ◌>>◌, return, write_kv}
use hotbatch.Gpt2.Layers.{dim}
use hotbatch.Gpt2.Attention.{Gpt2Attention, catenated, extended, store_row, decode_row}
use hotbatch.Gpt2.Inversion.{
  IsPure, pure_rules, lifted-IsPure, bind-ok, pure-ok, tail-ok, lifted-ok, read_kv-ok,
  read_kv-IsPure, write_kv-ok,
}

module _ {T : Tensors} (C : Candle T) where
  open T use {Tensor, dims}

  -- What is asked of the library: a row of a tensor, and a copy, have the shape that is left, and `cat`
  -- along axis 1 adds the sizes there.
  pub record KeepsShapes : Type 0 where
    pub index_dims :
        (row : ℕ) (xs ys : Tensor) (d : ℕ) (ds : List ℕ)
        → C.index row xs ≡ some ys
        → dims xs ≡ d ∷ ds
        → dims ys ≡ ds
    pub contiguous_dims : (xs ys : Tensor) → C.contiguous xs ≡ some ys → dims ys ≡ dims xs
    pub cat_dims :
        (xs ys zs : Tensor)
        → C.cat (xs ∷ ys ∷ []) 1 ≡ some zs
        → dim_at (dims zs) 1 ≡ dim_at (dims xs) 1 + dim_at (dims ys) 1

  -- How many tokens a key tensor holds.
  abbrev pub tokens_of : Tensor → ℕ
  tokens_of keys = dim_at (dims keys) 1

  -- At a layer a handle's sequence has one token more than before.
  abbrev pub HasGrown : SlabKvCache Tensor → SlabKvCache Tensor → ℕ → KvHandle → Type 0
  HasGrown c c' layer h =
      (past now : Tensor × Tensor) × (read T c h layer ≡ ok past)
      × (read T c' h layer ≡ ok now)
      × (tokens_of now.0 ≡ tokens_of past.0 + 1)

  -- What a row's turn does to the cache.
  pub record RowDone (h : KvHandle) (layer : ℕ) (c c' : SlabKvCache Tensor) : Type 0 where
    pub slab : IsSlab T c'
    pub grown : HasGrown c c' layer h
    pub others :
        (g : KvHandle) (other : ℕ)
        → (g.slot ≢ h.slot) ⊎ (other ≢ layer)
        → read T c' g other ≡ read T c g other

  module _ (attn : Gpt2Attention C) (laws : KeepsShapes) where
    catenated-IsPure : (k v : Tensor) (past : Tensor × Tensor) → IsPure (catenated C attn k v past)
    unfolding catenated
    catenated-IsPure k v past = search pure_rules

    dim-IsPure : (xs : Tensor) (axis : ℕ) → IsPure (dim C xs axis)
    unfolding dim
    dim-IsPure xs axis = search pure_rules

    extended-IsPure : (k v : Tensor) (past : Tensor × Tensor) → IsPure (extended C attn k v past)
    unfolding extended
    extended-IsPure k v past = search (pure_rules, catenated-IsPure)

    catenated-grown :
        (k v : Tensor) (past total : Tensor × Tensor) (c : SlabKvCache Tensor)
        → (catenated C attn k v past c).0 ≡ ok total
        → tokens_of total.0 ≡ tokens_of past.0 + tokens_of k
    unfolding catenated return
    catenated-grown k v past total c e =
        let (k_total, k_cat, rest, _) = pure-ok _ _ c total (lifted-IsPure _) e in
        let (v_total, v_cat, done, _) = pure-ok _ _ c total (lifted-IsPure _) rest in
        let law = laws.cat_dims past.0 k k_total (lifted-ok _ c k_total k_cat) in
        ground (arith, done, law)

    dim_at-get_elem? : (ds : List ℕ) (i n : ℕ) → get_elem? ds i ≡ some n → dim_at ds i ≡ n
    dim_at-get_elem? [] i n e = absurd (ground arith)
    dim_at-get_elem? (d ∷ ds) zero n e = ground arith
    dim_at-get_elem? (d ∷ ds) (suc i) n e = dim_at-get_elem? ds i n e

    extended-grown :
        (k v : Tensor) (past total : Tensor × Tensor) (c : SlabKvCache Tensor)
        → (extended C attn k v past c).0 ≡ ok total
        → tokens_of total.0 ≡ tokens_of past.0 + tokens_of k
    unfolding extended dim return
    extended-grown k v past total c e =
        let (cached, counted, rest, _) = pure-ok _ _ c total (dim-IsPure past.0 1) e in
        let size = dim_at-get_elem? (dims past.0) 1 cached (lifted-ok _ c cached counted) in
        elim (Bool-cases (cached == 0)) [
          | inl empty ↦ ground (arith, size, empty, rw empty at rest)
          | inr filled ↦ catenated-grown k v past total c (rw filled at rest)
        ]

    -- The end of a row's turn.
    kept_pair :
        (h : KvHandle) (layer : ℕ) (new total : Tensor × Tensor) (c : SlabKvCache Tensor)
        → ((write_kv T h layer new.0 new.1 >> return new) c).0 ≡ ok total
        → (new ≡ total)
          × (write T c h layer new.0 new.1
              ≡ ok ((write_kv T h layer new.0 new.1 >> return new) c).1)
    unfolding return
    kept_pair h layer new total c e =
        let (u, written, done, state) =
          bind-ok (write_kv T h layer new.0 new.1) (λ u. return new) c total e in
        (ground (arith, done), write_kv-ok T h layer new.0 new.1 c u written ∙ ap ok (sym state))

    -- What a row's turn stores.
    record Stored (h : KvHandle) (layer : ℕ) (c c' : SlabKvCache Tensor) : Type 0 where
      past : Tensor × Tensor
      new : Tensor × Tensor
      was : read T c h layer ≡ ok past
      wrote : write T c h layer new.0 new.1 ≡ ok c'
      grown : tokens_of new.0 ≡ tokens_of past.0 + 1

    store_row-Stored :
        (key value : Tensor) (layer row : ℕ) (h : KvHandle) (c : SlabKvCache Tensor)
        (batch heads dim_size : ℕ) (total : Tensor × Tensor)
        → dims key ≡ batch ∷ heads ∷ 1 ∷ dim_size ∷ []
        → (store_row C attn key value layer row h c).0 ≡ ok total
        → Stored h layer c (store_row C attn key value layer row h c).1
    unfolding store_row
    store_row-Stored key value layer row h c batch heads dim_size total shape e =
        let (k_row, i1, e1, s1) = pure-ok _ _ c total (lifted-IsPure _) e in
        let (k_current, i2, e2, s2) = pure-ok _ _ c total (lifted-IsPure _) e1 in
        let (v_row, i3, e3, s3) = pure-ok _ _ c total (lifted-IsPure _) e2 in
        let (v_current, i4, e4, s4) = pure-ok _ _ c total (lifted-IsPure _) e3 in
        let (past, i5, e5, s5) = pure-ok _ _ c total (read_kv-IsPure T h layer) e4 in
        let (new, i6, e6, s6) = pure-ok _ _ c total (extended-IsPure k_current v_current past) e5 in
        let row_shape =
          laws.index_dims row key k_row batch (heads ∷ 1 ∷ dim_size ∷ []) (lifted-ok _ c k_row i1)
            shape in
        let one : tokens_of k_current ≡ 1 =
          ap (λ ds. dim_at ds 1)
            (laws.contiguous_dims k_row k_current (lifted-ok _ c k_current i2) ∙ row_shape) in
        let after = s1 ∙ (s2 ∙ (s3 ∙ (s4 ∙ (s5 ∙ s6)))) in
        record {
          past = past;
          new = new;
          was = read_kv-ok T h layer c past i5;
          wrote = (kept_pair h layer new total c e6).1 ∙ ap ok (sym after);
          grown =
              extended-grown k_current v_current past new c i6 ∙ ap (λ n. tokens_of past.0 + n) one;
        }

    turn_effect :
        (h : KvHandle) (layer : ℕ) (c c' : SlabKvCache Tensor)
        → IsSlab T c
        → Stored h layer c c'
        → RowDone h layer c c'
    turn_effect h layer c c' s w = record {
      slab = write-IsSlab T c h layer w.new.0 w.new.1 c' s w.wrote;
      grown = (w.past, w.new, w.was, read-write T c h layer w.new.0 w.new.1 c' s w.wrote, w.grown);
      others = λ g other d. read-write_other T c h g layer other w.new.0 w.new.1 c' w.wrote d;
    }

    pub decode_row-RowDone :
        (query key value : Tensor) (layer row : ℕ) (h : KvHandle) (c : SlabKvCache Tensor)
        (batch heads dim_size : ℕ) (context : Tensor)
        → IsSlab T c
        → dims key ≡ batch ∷ heads ∷ 1 ∷ dim_size ∷ []
        → (decode_row C attn query key value layer row h c).0 ≡ ok context
        → RowDone h layer c (decode_row C attn query key value layer row h c).1
    unfolding decode_row
    decode_row-RowDone query key value layer row h c batch heads dim_size context slab shape e =
        let (q_row, i1, e1, s1) = pure-ok _ _ c context (lifted-IsPure _) e in
        let (q, i2, e2, s2) = pure-ok _ _ c context (lifted-IsPure _) e1 in
        let (total, i3, s3) = tail-ok _ _ c context (λ a. search pure_rules depth 24) e2 in
        subst (RowDone h layer c) (sym (s1 ∙ (s2 ∙ s3))) (
          turn_effect h layer c _ slab
            (store_row-Stored key value layer row h c batch heads dim_size total shape i3))
