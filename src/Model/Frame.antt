-- ===== src/Model/Frame.antt =====
-- Writing tensors leaves the cache's bookkeeping alone, and so do both passes of the model.
use hotbatch.Base.{ℕ, ◌≡◌, refl, ◌∙◌, ap, List, Bool-cases, Option-cases, inl, inr, length, ltb}
use hotbatch.KvCache.{KvHandle, Tensors, SlabKvCache}
use hotbatch.KvCache.Invariant.{IsSlab, write-Written, write-IsSlab}
use hotbatch.Model.Defs.{DecodeInput, Writes, here, next, Backend, prefill, forward, first_over}

module _ (T : Tensors) where
  open T use {Tensor}

  -- What writing does not change.
  pub record SameSlots (c c' : SlabKvCache Tensor) : Type 0 where
    pub allocated : c'.allocated ≡ c.allocated
    pub seqs : c'.max_seqs ≡ c.max_seqs
    pub len : c'.max_seq_len ≡ c.max_seq_len

  pub Writes-SameSlots : {c c' : SlabKvCache Tensor} → Writes T c c' → SameSlots c c'
  Writes-SameSlots here = record { allocated = refl; seqs = refl; len = refl }
  Writes-SameSlots (next {d = d} {e = e} r h layer k v ok) =
      let s = Writes-SameSlots r in
      let w = write-Written T d h layer k v e ok in
      record {
        allocated = ap (λ (x : SlabKvCache Tensor). x.allocated) w.after ∙ s.allocated;
        seqs = ap (λ (x : SlabKvCache Tensor). x.max_seqs) w.after ∙ s.seqs;
        len = ap (λ (x : SlabKvCache Tensor). x.max_seq_len) w.after ∙ s.len;
      }

  pub Writes-trans : {c d e : SlabKvCache Tensor} → Writes T c d → Writes T d e → Writes T c e
  Writes-trans r here = r
  Writes-trans r (next q h layer k v done) = next (Writes-trans r q) h layer k v done

  pub Writes-IsSlab : {c c' : SlabKvCache Tensor} → Writes T c c' → IsSlab T c → IsSlab T c'
  Writes-IsSlab here v = v
  Writes-IsSlab (next {d = d} {e = e} r h layer k v ok) s =
      write-IsSlab T d h layer k v e (Writes-IsSlab r s) ok

  -- `prefill` changes the cache by writes alone, whether it succeeds or fails.
  pub prefill-Writes :
      (B : Backend T) (prompt : List ℕ) (h : KvHandle) (c : SlabKvCache Tensor)
      → Writes T c (prefill B prompt h c).1
  unfolding prefill
  prefill-Writes B prompt h c = elim (Bool-cases (ltb B.max_positions (length prompt))) [
    | inl over ↦ rw over here
    | inr fits ↦ rw fits (B.prefill_writes prompt h c)
  ]

  pub forward-Writes :
      (B : Backend T) (batch : List DecodeInput) (c : SlabKvCache Tensor)
      → Writes T c (forward B batch c).1
  unfolding forward
  forward-Writes B batch c = elim (Option-cases (first_over B.max_positions batch)) [
    | inr (input, over) ↦ rw (over, forward) here
    | inl fits ↦ rw (fits, forward) (B.forward_writes batch c)
  ]
