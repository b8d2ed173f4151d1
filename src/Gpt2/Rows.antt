-- ===== src/Gpt2/Rows.antt =====
-- The rows of a decode step, one after the other: each adds one token to its own sequence.
use hotbatch.Base.{ℕ, suc, ◌≡◌, refl, sym, subst, ◌∙◌, ◌≢◌, ◌⊎◌, inl, inr, List, [], ◌∷◌, All, ok}
use hotbatch.KvCache.{KvHandle, Tensors, SlabKvCache, read}
use hotbatch.KvCache.Invariant.{IsSlab}
use hotbatch.Gpt2.Steps.{Candle, return}
use hotbatch.Gpt2.Layers.{quadruple, dims4}
use hotbatch.Gpt2.Attention.{Gpt2Attention, decode_row, decode_rows, decode_attention}
use hotbatch.Gpt2.Inversion.{
  IsPure, pure_rules, return-IsPure, fails-IsPure, if-IsPure, bind-ok, pure-ok, tail-ok,
}
use hotbatch.Gpt2.Growth.{KeepsShapes, HasGrown, RowDone, decode_row-RowDone}

-- The handle has a slot of its own.
abbrev pub IsAway : KvHandle → List KvHandle → Type 0
IsAway g handles = All (λ h. g.slot ≢ h.slot) handles

abbrev pub Apart : List KvHandle → Type 0
Apart [] = Unit
Apart (h ∷ hs) = IsAway h hs × Apart hs

module _ {T : Tensors} (C : Candle T) where
  open T use {Tensor, dims}

  -- What a decode step does to the cache at one layer: the cache stays well formed, each sequence has
  -- one token more there, and nothing else changes.
  pub record BatchDone (handles : List KvHandle) (layer : ℕ) (c c' : SlabKvCache Tensor)
      : Type 0 where
    pub slab : IsSlab T c'
    pub grown : All (HasGrown C c c' layer) handles
    pub others :
        (g : KvHandle) (other : ℕ)
        → IsAway g handles ⊎ (other ≢ layer)
        → read T c' g other ≡ read T c g other

  module _ (attn : Gpt2Attention C) (laws : KeepsShapes C) where
    -- What grows after another sequence's row grows from before it.
    grown-before :
        (h : KvHandle) (layer : ℕ) (c c1 c2 : SlabKvCache Tensor) (hs : List KvHandle)
        → RowDone C h layer c c1
        → IsAway h hs
        → All (HasGrown C c1 c2 layer) hs
        → All (HasGrown C c c2 layer) hs
    grown-before h layer c c1 c2 [] row away grown = tt
    grown-before h layer c c1 c2 (g ∷ hs) row (d, away) ((past, now, was, is_now, more), grown) = (
      (past, now, sym (row.others g layer (inl (λ e. d (sym e)))) ∙ was, is_now, more),
      grown-before h layer c c1 c2 hs row away grown,
    )

    both-BatchDone :
        (h : KvHandle) (layer : ℕ) (c c1 c2 : SlabKvCache Tensor) (hs : List KvHandle)
        → IsAway h hs
        → RowDone C h layer c c1
        → BatchDone hs layer c1 c2
        → BatchDone (h ∷ hs) layer c c2
    both-BatchDone h layer c c1 c2 hs away row batch =
        let (past, now, was, is_now, more) = row.grown in
        let still_grown : HasGrown C c c2 layer h =
          (past, now, was, batch.others h layer (inl away) ∙ is_now, more) in
        record {
          slab = batch.slab;
          grown = (still_grown, grown-before h layer c c1 c2 hs row away batch.grown);
          others = λ g other apart. elim apart [
            | inl (d, ds) ↦ batch.others g other (inl ds) ∙ row.others g other (inl d)
            | inr n ↦ batch.others g other (inr n) ∙ row.others g other (inr n)
          ];
        }

    decode_rows-BatchDone :
        (query key value : Tensor) (layer row : ℕ) (handles : List KvHandle)
        (c : SlabKvCache Tensor) (batch heads dim_size : ℕ) (contexts : List Tensor)
        → IsSlab T c
        → Apart handles
        → dims key ≡ batch ∷ heads ∷ 1 ∷ dim_size ∷ []
        → (decode_rows C attn query key value layer row handles c).0 ≡ ok contexts
        → BatchDone handles layer c (decode_rows C attn query key value layer row handles c).1
    unfolding decode_rows return
    decode_rows-BatchDone query key value layer row [] c batch heads dim_size contexts slab apart
          shape e =
        record { slab = slab; grown = tt; others = λ g other d. refl }
    decode_rows-BatchDone query key value layer row (h ∷ hs) c batch heads dim_size contexts slab
          (away, apart) shape e =
        let (context, i1, e1, s1) =
          bind-ok (decode_row C attn query key value layer row h) _ c contexts e in
        let (rest, i2, s2) = tail-ok _ _ _ contexts (λ a. return-IsPure _) e1 in
        let done =
          decode_row-RowDone C attn laws query key value layer row h c batch heads dim_size context
            slab shape i1 in
        subst (BatchDone (h ∷ hs) layer c) (sym (s1 ∙ s2)) (
          both-BatchDone h layer c _ _ hs away done (
            decode_rows-BatchDone query key value layer (suc row) hs _ batch heads dim_size rest
              done.slab apart shape i2))

    quadruple-IsPure : (ds : List ℕ) → IsPure (quadruple C ds)
    unfolding quadruple
    quadruple-IsPure (a ∷ (b ∷ (d ∷ (n ∷ [])))) = return-IsPure _
    quadruple-IsPure [] = fails-IsPure _
    quadruple-IsPure (a ∷ []) = fails-IsPure _
    quadruple-IsPure (a ∷ (b ∷ [])) = fails-IsPure _
    quadruple-IsPure (a ∷ (b ∷ (d ∷ []))) = fails-IsPure _
    quadruple-IsPure (a ∷ (b ∷ (d ∷ (n ∷ (m ∷ ds))))) = fails-IsPure _

    dims4-IsPure : (xs : Tensor) → IsPure (dims4 C xs)
    unfolding dims4
    dims4-IsPure xs = quadruple-IsPure (dims xs)

    -- When the attention of a decode step succeeds, at its layer each of the batch's sequences has
    -- exactly one token more in the cache than before, and no other layer and no other sequence reads
    -- anything else; the cache stays well formed. Here the cache is well formed, the batch's handles have
    -- slots of their own, the keys have four dimensions with one token each, and the tensor library
    -- keeps shapes.
    pub decode_attention-BatchDone :
        (query key value : Tensor) (layer : ℕ) (handles : List KvHandle) (c : SlabKvCache Tensor)
        (batch heads dim_size : ℕ) (context : Tensor)
        → IsSlab T c
        → Apart handles
        → dims key ≡ batch ∷ heads ∷ 1 ∷ dim_size ∷ []
        → (decode_attention C attn query key value layer handles c).0 ≡ ok context
        → BatchDone handles layer c (decode_attention C attn query key value layer handles c).1
    unfolding decode_attention
    decode_attention-BatchDone query key value layer handles c batch heads dim_size context slab
          apart shape e =
        let (q_shape, i1, e1, s1) = pure-ok _ _ c context (dims4-IsPure query) e in
        let (u, i2, e2, s2) =
          pure-ok _ _ c context (if-IsPure _ (return-IsPure tt) (fails-IsPure _)) e1 in
        let (w, i3, e3, s3) =
          pure-ok _ _ c context (if-IsPure _ (return-IsPure tt) (fails-IsPure _)) e2 in
        let (contexts, i4, s4) = tail-ok _ _ c context (λ a. search pure_rules) e3 in
        subst (BatchDone handles layer c) (sym (s1 ∙ (s2 ∙ (s3 ∙ s4)))) (
          decode_rows-BatchDone query key value layer 0 handles c batch heads dim_size contexts slab
            apart shape i4)
