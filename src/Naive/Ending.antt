-- ===== src/Naive/Ending.antt =====
-- The naive engine's loop ends: within the request's token limit it answers, without a panic, and the
-- slot of its cache is given back.
use hotbatch.Base.{
  ℕ, suc, ◌+◌, ◌≤◌, ◌≡◌, refl, sym, ap, ◌∙◌, subst, ◌⊎◌, inl, inr, true, false, none, List, [], ◌∷◌,
  ◌++◌, arith, Bool-cases, length, length-append,
}
use hotbatch.Sampler.{sample}
use hotbatch.Sampler.Range.{sample-config}
use hotbatch.Sequence.{Sequence, is_done, cancel, append_token, safe_end}
use hotbatch.Sequence.Emit.{IsFlushed, take-append}
use hotbatch.Sequence.Finish.{append_token_reason}
use hotbatch.Sequence.Limit.{IsWithin, append_token-IsWithin}
use hotbatch.Delivery.{try_send_tokens}
use hotbatch.Metrics.{record_token, record_cancelled}
use hotbatch.Queue.{Shared}
use hotbatch.Scheduler.{Engine, Exec, finished, note, emit}
use hotbatch.Scheduler.Reaping.{cancel-done, cancel-handle}
use hotbatch.Scheduler.Advancing.{append-same}

-- A sequence that is to get `n` more tokens at most, and is not done.
pub record IsGoing (n : ℕ) (q : Sequence) : Type 0 where
  pub going : is_done q ≡ false
  pub open_end : q.finish_reason ≡ none
  pub flushed : IsFlushed q
  pub within : IsWithin q
  pub left : q.sampler.max_new_tokens ≤ length q.generated_tokens + n

module _ (E : Engine) where
  open E use {tensors, runtime, floats, backend}

  -- One token later it is done, or has one less to go.
  appended-IsGoing :
      (n : ℕ) (q q2 : Sequence) (t now : ℕ)
      → IsGoing (suc n) q
      → q2 ≡ record (append_token q t now).1 { emitted_tokens = safe_end (append_token q t now).1 }
      → q2.generated_tokens ≡ q.generated_tokens ++ (t ∷ [])
      → IsFlushed q2
      → (is_done q2 ≡ true) ⊎ IsGoing n q2
  unfolding is_done
  appended-IsGoing n q q2 t now v is gen f = elim (append_token_reason q t now v.open_end) [
    | inl st ↦ inl (ground (arith, is, st.ended))
    | inr (inl ex) ↦ inl (ground (arith, is, ex.ended))
    | inr (inr co) ↦
        let w = append_token-IsWithin q t now v.open_end v.within in
        let same = (append-same E q t now).2 in
        inr (record {
          going = ground (arith, is, co.unchanged, v.going);
          open_end = ground (arith, is, co.reason);
          flushed = f;
          within =
              subst IsWithin (sym is) (record { open_below = w.open_below; bounded = w.bounded });
          left = ground (arith, is, gen, same, v.left, length-append q.generated_tokens (t ∷ []));
        })
  ]

  -- What `emit` returns: the sequence, done or with one token less to go, and with its handle.
  pub record Emitted (n : ℕ) (q : Sequence) (e : Exec (Sequence × Shared runtime)) : Type 0 where
    pub result : Sequence
    pub shared : Shared runtime
    pub returned : e ≡ finished (result, shared)
    pub handle : result.kv_handle ≡ q.kv_handle
    pub state : (is_done result ≡ true) ⊎ IsGoing n result

  pub emit-Emitted :
      (n : ℕ) (logits : List ℕ) (q : Sequence) (s : Shared runtime)
      → IsGoing (suc n) q
      → Emitted n q (emit E logits q s)
  unfolding emit safe_end is_done
  emit-Emitted n logits q s v =
      let q0 = record q { sampler = (sample floats q.sampler logits).1 } in
      let same = sample-config floats q.sampler logits in
      let t = (sample floats q.sampler logits).0 in
      let now = (runtime.now s.world).0 in
      let live : IsGoing (suc n) q0 = record {
        going = v.going;
        open_end = v.open_end;
        flushed = ground (arith, v.flushed, same);
        within = record {
          open_below = λ e. ground (arith, v.within.open_below e, same);
          bounded = ground (arith, v.within.bounded, same);
        };
        left = ground (arith, v.left, same);
      } in
      let (timing, q1) = append_token q0 t now in
      let (out, q2, taken, is, f, gen, join) = take-append q0 t now live.flushed live.open_end in
      let d = appended-IsGoing n q0 q2 t now live is gen f in
      let kept : q2.kv_handle ≡ q.kv_handle =
        ap (λ (x : Sequence). x.kv_handle) is ∙ (append-same E q0 t now).0 in
      let s1 =
        note E (record_token timing.first_latency timing.inter_token_latency)
          (record s { world = (runtime.now s.world).1 }) in
      let (sent, w) = try_send_tokens runtime q2.sender out q1.finish_reason s1.world in
      elim (Bool-cases sent) [
        | inl yes_ ↦
            rw (taken, yes_, emit)
              (record {
                result = q2;
                shared = record s1 { world = w };
                returned = refl;
                handle = kept;
                state = d;
              })
        | inr no_ ↦
            rw (taken, no_, emit)
              (record {
                result = cancel q2;
                shared = note E record_cancelled (record s1 { world = w });
                returned = refl;
                handle = cancel-handle E q2 ∙ kept;
                state = inl (cancel-done E q2);
              })
      ]
