-- ===== src/Scheduler/Advancing.antt =====
-- What a decode step makes of each running sequence.
use hotbatch.Base.{
  ℕ, suc, ◌+◌, ◌≤◌, true, ◌⊎◌, ◌≡◌, refl, sym, ap, ap₂, ◌∙◌, subst, inl, inr, List, [], ◌∷◌, arith,
  Bool-cases, Option-cases, length, length-append, All,
}
use hotbatch.Sampler.{sample}
use hotbatch.Sampler.Range.{sample-config}
use hotbatch.Sequence.{Sequence, is_done, cancel, fail, append_token, safe_end}
use hotbatch.Sequence.Emit.{IsFlushed, take-append}
use hotbatch.Sequence.Finish.{append_token_reason}
use hotbatch.Sequence.Limit.{IsWithin, append_token-IsWithin}
use hotbatch.Message.{row_failed}
use hotbatch.Delivery.{try_send_tokens}
use hotbatch.Metrics.{record_token, record_cancelled}
use hotbatch.Queue.{Shared}
use hotbatch.Model.{DecodeLogits, row}
use hotbatch.Scheduler.Defs.{
  Engine, Exec, finished, response_is_done, sender_is_closed, note, send_error,
}
use hotbatch.Scheduler.Decode.{emit, advance, advance_all}
use hotbatch.Scheduler.Live.{handles, IsLive}
use hotbatch.Scheduler.Reaping.{DoneOrLive, cancel-done, cancel-handle, fail-done, fail-handle}

-- At most so many tokens before the limit.
abbrev pub NearEnd : ℕ → Sequence → Type 0
NearEnd n q = q.sampler.max_new_tokens ≤ length q.generated_tokens + n

-- Done, or one token nearer to the limit.
abbrev pub Nearer : Sequence → Sequence → Type 0
Nearer q r =
    (is_done r ≡ true)
    ⊎ (length r.generated_tokens ≡ length q.generated_tokens + 1)
      × (r.sampler.max_new_tokens ≡ q.sampler.max_new_tokens)

module _ (E : Engine) where
  open E use {tensors, runtime, floats, backend}

  -- What stays of a sequence when a token is appended.
  pub append-same :
      (q : Sequence) (t now : ℕ)
      → ((append_token q t now).1.kv_handle ≡ q.kv_handle)
        × ((append_token q t now).1.prompt_tokens ≡ q.prompt_tokens)
        × ((append_token q t now).1.sampler ≡ q.sampler)
  unfolding append_token
  append-same q t now = (ground arith, ground arith, ground arith)

  -- A sequence that got a token and gave out what it may show is done or goes on.
  appended-DoneOrLive :
      (q q2 : Sequence) (t now : ℕ)
      → IsLive E q
      → q2 ≡ record (append_token q t now).1 { emitted_tokens = safe_end (append_token q t now).1 }
      → IsFlushed q2
      → DoneOrLive E q2
  unfolding is_done
  appended-DoneOrLive q q2 t now v is f = elim (append_token_reason q t now v.open_end) [
    | inl st ↦ inl (ground (arith, is, st.ended))
    | inr (inl ex) ↦ inl (ground (arith, is, ex.ended))
    | inr (inr co) ↦
        let (handle, prompt, sampler) = append-same q t now in
        let w = append_token-IsWithin q t now v.open_end v.within in
        inr (record {
          going = ground (arith, is, co.unchanged, v.going);
          open_end = ground (arith, is, co.reason);
          flushed = f;
          within =
              subst IsWithin (sym is) (record { open_below = w.open_below; bounded = w.bounded });
          prompted = ground (arith, is, prompt, v.prompted);
          room = ground (arith, is, prompt, sampler, v.room);
        })
  ]

  resampled-IsLive :
      (q : Sequence) (logits : List ℕ)
      → IsLive E q
      → IsLive E (record q { sampler = (sample floats q.sampler logits).1 })
  unfolding safe_end is_done
  resampled-IsLive q logits v =
      let same = sample-config floats q.sampler logits in
      record {
        going = v.going;
        open_end = v.open_end;
        flushed = ground (arith, v.flushed, same);
        within = record {
          open_below = λ e. ground (arith, v.within.open_below e, same);
          bounded = ground (arith, v.within.bounded, same);
        };
        prompted = v.prompted;
        room = ground (arith, v.room, same);
      }

  -- The loop's body for one sequence returns it done or going, with its handle.
  record Advanced (q : Sequence) (e : Exec (Sequence × Shared runtime)) : Type 0 where
    result : Sequence
    shared : Shared runtime
    returned : e ≡ finished (result, shared)
    handle : result.kv_handle ≡ q.kv_handle
    state : DoneOrLive E result
    nearer : Nearer q result

  emit-Advanced :
      (logits : List ℕ) (q : Sequence) (s : Shared runtime)
      → IsLive E q
      → Advanced q (emit E logits q s)
  unfolding emit
  emit-Advanced logits q s v =
      let q0 = record q { sampler = (sample floats q.sampler logits).1 } in
      let t = (sample floats q.sampler logits).0 in
      let now = (runtime.now s.world).0 in
      let live = resampled-IsLive q logits v in
      let (timing, q1) = append_token q0 t now in
      let (out, q2, taken, is, f, gen, join) = take-append q0 t now live.flushed live.open_end in
      let d = appended-DoneOrLive q0 q2 t now live is f in
      let kept : q2.kv_handle ≡ q.kv_handle =
        ap (λ (x : Sequence). x.kv_handle) is ∙ (append-same q0 t now).0 in
      let s1 =
        note E (record_token timing.first_latency timing.inter_token_latency)
          (record s { world = (runtime.now s.world).1 }) in
      let (sent, w) = try_send_tokens runtime q2.sender out q1.finish_reason s1.world in
      elim (Bool-cases sent) [
        | inl yes_ ↦
            rw (taken, yes_, emit)
              (record {
                result = q2;
                shared = record s1 { world = w };
                returned = refl;
                handle = kept;
                state = d;
                nearer = inr (
                  ground (arith, gen, length-append q0.generated_tokens (t ∷ [])),
                  ground
                      (arith, is, (append-same q0 t now).2, sample-config floats q.sampler logits),
                );
              })
        | inr no_ ↦
            rw (taken, no_, emit)
              (record {
                result = cancel q2;
                shared = note E record_cancelled (record s1 { world = w });
                returned = refl;
                handle = cancel-handle E q2 ∙ kept;
                state = inl (cancel-done E q2);
                nearer = inl (cancel-done E q2);
              })
      ]

  advance-Advanced :
      (logits : DecodeLogits) (i : ℕ) (q : Sequence) (s : Shared runtime)
      → IsLive E q
      → Advanced q (advance E logits i q s)
  unfolding advance
  advance-Advanced logits i q s v =
      let over = response_is_done E q.response_done s in
      let closed = sender_is_closed E q.sender over.1 in
      elim (Bool-cases over.0) [
        | inl done ↦
            rw (done, advance)
              (record {
                result = cancel q;
                shared = over.1;
                returned = refl;
                handle = cancel-handle E q;
                state = inl (cancel-done E q);
                nearer = inl (cancel-done E q);
              })
        | inr wanted ↦ elim (Bool-cases closed.0) [
          | inl gone ↦
              rw (wanted, gone, advance)
                (record {
                  result = cancel q;
                  shared = note E record_cancelled closed.1;
                  returned = refl;
                  handle = cancel-handle E q;
                  state = inl (cancel-done E q);
                  nearer = inl (cancel-done E q);
                })
          | inr here ↦ elim (Option-cases (row logits i)) [
            | inl missing ↦
                rw (wanted, here, missing, advance)
                  (record {
                    result = fail q;
                    shared = send_error E q.sender (row_failed q.id i) closed.1;
                    returned = refl;
                    handle = fail-handle E q;
                    state = inl (fail-done E q);
                    nearer = inl (fail-done E q);
                  })
            | inr (r, found) ↦ rw (wanted, here, found, advance) (emit-Advanced r q closed.1 v)
          ]
        ]
      ]

  pub record AllAdvanced (qs : List Sequence) (e : Exec (List Sequence × Shared runtime))
      : Type 0 where
    pub result : List Sequence
    pub shared : Shared runtime
    pub returned : e ≡ finished (result, shared)
    pub same : handles result ≡ handles qs
    pub count : length result ≡ length qs
    pub states : All (DoneOrLive E) result
    pub nearer :
        (n : ℕ) → All (NearEnd (suc n)) qs → All (λ r. (is_done r ≡ true) ⊎ NearEnd n r) result

  Nearer-NearEnd :
      (q r : Sequence) (n : ℕ) → Nearer q r → NearEnd (suc n) q → (is_done r ≡ true) ⊎ NearEnd n r
  Nearer-NearEnd q r n (inl done) near = inl done
  Nearer-NearEnd q r n (inr (grown, same)) near = inr (omega (arith, grown, same, near))

  pub advance_all-AllAdvanced :
      (logits : DecodeLogits) (i : ℕ) (qs : List Sequence) (s : Shared runtime)
      → All (IsLive E) qs
      → AllAdvanced qs (advance_all E logits i qs s)
  unfolding advance_all
  advance_all-AllAdvanced logits i [] s a = record {
    result = [];
    shared = s;
    returned = refl;
    same = refl;
    count = refl;
    states = tt;
    nearer = λ n a. tt;
  }
  advance_all-AllAdvanced logits i (q ∷ qs) s (v, a) =
      let h = advance-Advanced logits i q s v in
      let t = advance_all-AllAdvanced logits (suc i) qs h.shared a in
      rw (h.returned, t.returned, advance_all)
        (record {
          result = h.result ∷ t.result;
          shared = t.shared;
          returned = refl;
          same = ap₂ ◌∷◌ h.handle t.same;
          count = ap suc t.count;
          states = (h.state, t.states);
          nearer = λ n b. (Nearer-NearEnd q h.result n h.nearer b.0, t.nearer n b.1);
        })
