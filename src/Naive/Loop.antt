-- ===== src/Naive/Loop.antt =====
-- The loop of the naive engine over a sequence that is going.
use hotbatch.Base.{
  ℕ, zero, suc, ◌<◌, ◌≡◌, refl, sym, ◌∙◌, subst, ◌⊎◌, inl, inr, true, [], ◌∷◌, arith, if◌then◌else◌,
  Bool-cases, Option-cases,
}
use hotbatch.KvCache.{SlabKvCache}
use hotbatch.KvCache.Owners.{Owns, Owns-same}
use hotbatch.Sequence.{Sequence, is_done, cancel}
use hotbatch.Message.{naive_failed, no_row, shutting_down}
use hotbatch.Metrics.{record_cancelled, record_step, set_batch_utilization}
use hotbatch.Queue.{Shared}
use hotbatch.Model.{DecodeLogits, row, forward}
use hotbatch.Model.Frame.{forward-Writes, Writes-IsSlab, Writes-SameSlots}
use hotbatch.Scheduler.{Engine, Exec, finished, note, input_of, response_is_done, sender_is_closed}
use hotbatch.Scheduler.Reaping.{cancel-handle}
use hotbatch.Scheduler.Starting.{Pass-cases}
use hotbatch.Naive.Defs.{
  Answer, fine, failure, Turn, Check, leave, go, before_forward, after_forward, decode_loop,
}
use hotbatch.Naive.Ending.{IsGoing, emit-Emitted}

module _ (E : Engine) (wait_for_model : E.runtime.World → Turn × E.runtime.World) (token : ℕ) where
  open E use {tensors, runtime, backend}

  -- The tests are left with the sequence's handle, or go on with a sequence that has the property.
  abbrev Passes : (Sequence → Type 0) → Sequence → Check (Shared runtime) → Type 0
  Passes P q e =
      ((a : Answer) × (q' : Sequence) × (s' : Shared runtime) × (e ≡ leave a q' s')
        × (q'.kv_handle ≡ q.kv_handle))
      ⊎ ((q' : Sequence) × (s' : Shared runtime) × (e ≡ go q' s')
          × (q'.kv_handle ≡ q.kv_handle)
          × P q')

  before-Passes :
      (n : ℕ) (q : Sequence) (s : Shared runtime)
      → IsGoing n q
      → Passes (IsGoing n) q (before_forward E wait_for_model token q s)
  unfolding before_forward
  before-Passes n q s v =
      let shut = response_is_done E token s in
      let over = response_is_done E q.response_done shut.1 in
      let closed = sender_is_closed E q.sender over.1 in
      elim (Bool-cases shut.0) [
        | inl b ↦ rw (b, before_forward) (inl (failure shutting_down, q, shut.1, refl, refl))
        | inr b ↦ elim (Bool-cases over.0) [
          | inl d ↦
              rw (b, d, before_forward) (inl (fine, cancel q, over.1, refl, cancel-handle E q))
          | inr d ↦ elim (Bool-cases closed.0) [
            | inl g ↦
                rw (b, d, g, before_forward)
                  (inl (fine, cancel q, note E record_cancelled closed.1, refl, cancel-handle E q))
            | inr h ↦ rw (b, d, h, before_forward) (inr (q, closed.1, refl, refl, v))
          ]
        ]
      ]

  after-Passes :
      (n : ℕ) (logits : DecodeLogits) (q : Sequence) (s : Shared runtime)
      → IsGoing (suc n) q
      → Passes
          (λ q'. (is_done q' ≡ true) ⊎ IsGoing n q')
          q
          (after_forward E wait_for_model token logits q s)
  unfolding after_forward
  after-Passes n logits q s v =
      let shut = response_is_done E token s in
      let over = response_is_done E q.response_done shut.1 in
      elim (Bool-cases shut.0) [
        | inl b ↦ rw (b, after_forward) (inl (failure shutting_down, q, shut.1, refl, refl))
        | inr b ↦ elim (Bool-cases over.0) [
          | inl d ↦ rw (b, d, after_forward) (inl (fine, cancel q, over.1, refl, cancel-handle E q))
          | inr d ↦ elim (Option-cases (row logits 0)) [
            | inl missing ↦
                rw (b, d, missing, after_forward)
                  (inl (failure (naive_failed (no_row 0)), q, over.1, refl, refl))
            | inr (r, found) ↦
                let e = emit-Emitted E n r q over.1 v in
                rw (b, d, found, e.returned, after_forward)
                  (inr (
                    e.result,
                    note E (set_batch_utilization 1 1)
                        (note E (record_step 1 (if is_done e.result then 0 else 1)) e.shared),
                    refl,
                    e.handle,
                    e.state,
                  ))
          ]
        ]
      ]

  pub record Looped (q : Sequence)
      (e : Exec (Answer × Sequence × SlabKvCache tensors.Tensor × Shared runtime)) : Type 0 where
    pub answer : Answer
    pub result : Sequence
    pub cache : SlabKvCache tensors.Tensor
    pub shared : Shared runtime
    pub returned : e ≡ finished (answer, result, cache, shared)
    pub handle : result.kv_handle ≡ q.kv_handle
    pub owns : Owns tensors cache (q.kv_handle ∷ [])

  IsGoing-more : (n : ℕ) (q : Sequence) → IsGoing n q → 0 < n
  IsGoing-more n q v = omega (arith, v.within.open_below v.open_end, v.left)

  -- With more fuel than tokens to go, the loop answers, and the sequence still holds its slot.
  pub decode_loop-Looped :
      (fuel n : ℕ) (q : Sequence) (c : SlabKvCache tensors.Tensor) (s : Shared runtime)
      → Owns tensors c (q.kv_handle ∷ [])
      → (is_done q ≡ true) ⊎ IsGoing n q
      → n < fuel
      → Looped q (decode_loop E wait_for_model token fuel q c s)
  unfolding decode_loop
  decode_loop-Looped zero n q c s o v l = absurd (omega arith)
  decode_loop-Looped (suc fuel) n q c s o (inl d) l =
      rw (d, decode_loop)
        (record {
          answer = fine;
          result = q;
          cache = c;
          shared = s;
          returned = refl;
          handle = refl;
          owns = o;
        })
  decode_loop-Looped (suc fuel) zero q c s o (inr v) l = absurd (omega (arith, IsGoing-more 0 q v))
  decode_loop-Looped (suc fuel) (suc n) q c s o (inr v) l = elim (before-Passes (suc n) q s v) [
    | inl (a, q', s', e, h) ↦
        rw (v.going, e, decode_loop)
          (record {
            answer = a;
            result = q';
            cache = c;
            shared = s';
            returned = refl;
            handle = h;
            owns = o;
          })
    | inr (q0, s1, e, h, v0) ↦
        let c' = (forward backend (input_of q0 ∷ []) c).1 in
        let w = forward-Writes tensors backend (input_of q0 ∷ []) c in
        let o' : Owns tensors c' (q.kv_handle ∷ []) =
          Owns-same tensors c c' (q.kv_handle ∷ []) (Writes-IsSlab tensors w o.slab)
            (Writes-SameSlots tensors w).allocated o in
        elim (Pass-cases (forward backend (input_of q0 ∷ []) c).0) [
          | inr (x, bad) ↦
              rw (v.going, e, bad, decode_loop)
                (record {
                  answer = failure (naive_failed x);
                  result = q0;
                  cache = c';
                  shared = s1;
                  returned = refl;
                  handle = h;
                  owns = o';
                })
          | inl (logits, good) ↦ elim (after-Passes n logits q0 s1 v0) [
            | inl (a, q', s', f, g) ↦
                rw (v.going, e, good, f, decode_loop)
                  (record {
                    answer = a;
                    result = q';
                    cache = c';
                    shared = s';
                    returned = refl;
                    handle = g ∙ h;
                    owns = o';
                  })
            | inr (q', s', f, g, v') ↦
                let same : q'.kv_handle ≡ q.kv_handle = g ∙ h in
                let r =
                  decode_loop-Looped fuel n q' c' s'
                    (subst (λ k. Owns tensors c' (k ∷ [])) (sym same) o') v' (omega arith) in
                rw (v.going, e, good, f, decode_loop)
                  (record {
                    answer = r.answer;
                    result = r.result;
                    cache = r.cache;
                    shared = r.shared;
                    returned = r.returned;
                    handle = r.handle ∙ same;
                    owns = subst (λ k. Owns tensors r.cache (k ∷ [])) same r.owns;
                  })
          ]
        ]
  ]
