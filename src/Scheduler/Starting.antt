-- ===== src/Scheduler/Starting.antt =====
-- A valid request starts a sequence that goes on, and prefilling keeps the scheduler sound.
use hotbatch.Base.{
  ◌+◌, ◌≤◌, ◌<◌, ◌≡◌, refl, sym, ap, ◌∙◌, subst, ◌⊎◌, inl, inr, Bool, none, some, List, [], ◌∷◌,
  ◌++◌, append-nil, arith, if◌then◌else◌, Bool-cases, Option-cases, length, length-append, All,
  All-append,
}
use hotbatch.Base.Checked.{word}
use hotbatch.KvCache.{KvHandle, free}
use hotbatch.KvCache.Owners.{Owns, Owns-free, Owns-same}
use hotbatch.Sequence.{
  GenerationRequest, Sequence, start, mark_running, safe_end, is_done, prompt_len, max_new_tokens,
}
use hotbatch.Sequence.Emit.{start-IsFlushed}
use hotbatch.Message.{RequestError, ModelError, prefill_failed}
use hotbatch.Model.{Pass, passed, failed, prefill}
use hotbatch.Model.Frame.{prefill-Writes, Writes-IsSlab, Writes-SameSlots}
use hotbatch.Scheduler.Defs.{Engine, Scheduler, validate_request, send_error}
use hotbatch.Scheduler.Admission.{release, drop_if_gone, prefill_and_run}
use hotbatch.Scheduler.Live.{handles, IsLive, IsSound}

handles-append : (qs rs : List Sequence) → handles (qs ++ rs) ≡ handles qs ++ handles rs
handles-append [] rs = refl
handles-append (q ∷ qs) rs = ap (◌∷◌ q.kv_handle) (handles-append qs rs)

pub Pass-cases :
    {A : Type 0} (r : Pass A) → ((a : A) × (r ≡ passed a)) ⊎ ((e : ModelError) × (r ≡ failed e))
Pass-cases (passed a) = inl (a, refl)
Pass-cases (failed e) = inr (e, refl)

module _ (E : Engine) where
  open E use {tensors, backend}

  -- A request is valid when it has a prompt, asks for tokens within the server's limit, and its whole
  -- length is representable and fits each of the three capacities.
  pub record IsValid (s : Scheduler E) (req : GenerationRequest) : Type 0 where
    pub prompted : 0 < prompt_len req
    pub asked : 0 < max_new_tokens req
    pub representable : prompt_len req + max_new_tokens req < word
    pub limited : max_new_tokens req ≤ s.config.max_new_tokens
    pub seq_len : prompt_len req + max_new_tokens req ≤ s.config.max_seq_len
    pub kv_len : prompt_len req + max_new_tokens req ≤ s.kv_cache.max_seq_len
    pub model_len : prompt_len req + max_new_tokens req ≤ backend.max_positions

  validate-IsValid :
      (s : Scheduler E) (req : GenerationRequest) → validate_request E s req ≡ none → IsValid s req
  unfolding validate_request
  validate-IsValid s req e = record {
    prompted = ground arith;
    asked = ground arith;
    representable = ground arith;
    limited = ground arith;
    seq_len = ground arith;
    kv_len = ground arith;
    model_len = ground arith;
  }

  pub valid-validate :
      (s : Scheduler E) (req : GenerationRequest) → IsValid s req → validate_request E s req ≡ none
  unfolding validate_request
  valid-validate s req v =
      ground
        (arith, v.prompted, v.asked, v.representable, v.limited, v.seq_len, v.kv_len, v.model_len)

  -- `validate_request` answers `Ok(())` exactly for the valid requests.
  pub validate_request_lem :
      (s : Scheduler E) (req : GenerationRequest)
      → (validate_request E s req ≡ none) × IsValid s req
        ⊎ ((e : RequestError) × (validate_request E s req ≡ some e) × (¬ IsValid s req))
  unfolding validate_request
  validate_request_lem s req = elim (Option-cases (validate_request E s req)) [
    | inl ok_ ↦ inl (ok_, validate-IsValid s req ok_)
    | inr (e, bad) ↦ inr (e, bad, λ v. ground (arith, bad, valid-validate s req v))
  ]

  -- A valid request starts a sequence that goes on.
  pub start-IsLive :
      (s : Scheduler E) (req : GenerationRequest) (h : KvHandle)
      → IsValid s req
      → IsLive E (mark_running (start req h))
  unfolding start mark_running is_done prompt_len max_new_tokens safe_end
  start-IsLive s req h v = record {
    going = refl;
    open_end = refl;
    flushed = start-IsFlushed req h;
    within = record { open_below = λ e. v.asked; bounded = omega arith };
    prompted = v.prompted;
    room = v.model_len;
  }

  -- What `drop_if_gone` does to the slots.
  pub record Dropped (q : Sequence) (s : Scheduler E) (r : Bool × Scheduler E) : Type 0 where
    pub running : r.1.running ≡ s.running
    pub config : r.1.config ≡ s.config
    pub cache : r.1.kv_cache ≡ (if r.0 then free s.kv_cache q.kv_handle else s.kv_cache)

  pub drop-Dropped : (q : Sequence) (s : Scheduler E) → Dropped q s (drop_if_gone E q s)
  unfolding drop_if_gone
  drop-Dropped q s = record { running = ground arith; config = ground arith; cache = ground arith }

  -- Between the two ends of an admission the new sequence holds its slot beside the running ones.
  pub record IsAdmitting (q : Sequence) (s : Scheduler E) : Type 0 where
    pub owns : Owns tensors s.kv_cache (handles s.running ++ (q.kv_handle ∷ []))
    pub bound : length s.running < s.config.max_running_seqs
    pub live : All (IsLive E) s.running

  pub release-IsSound :
      (q : Sequence) (s s' : Scheduler E)
      → IsAdmitting q s
      → s'.running ≡ s.running
      → s'.config ≡ s.config
      → s'.kv_cache ≡ free s.kv_cache q.kv_handle
      → IsSound E s'
  release-IsSound q s s' v r f c = record {
    owns =
        subst (λ k. Owns tensors k (handles s'.running)) (sym c)
          (subst (λ qs. Owns tensors (free s.kv_cache q.kv_handle) (handles qs)) (sym r)
            (subst (Owns tensors (free s.kv_cache q.kv_handle)) (append-nil (handles s.running))
              (Owns-free tensors s.kv_cache (handles s.running) q.kv_handle [] v.owns)));
    bound = ground (arith, v.bound, r, f);
    live = subst (All (IsLive E)) (sym r) v.live;
  }

  push-IsSound :
      (q : Sequence) (s s' : Scheduler E)
      → IsAdmitting q s
      → IsLive E q
      → s'.running ≡ s.running ++ (q ∷ [])
      → s'.config ≡ s.config
      → s'.kv_cache ≡ s.kv_cache
      → IsSound E s'
  push-IsSound q s s' v l r f c = record {
    owns =
        subst (λ k. Owns tensors k (handles s'.running)) (sym c)
          (subst (Owns tensors s.kv_cache)
            (sym (handles-append s.running (q ∷ [])) ∙ ap handles (sym r)) v.owns);
    bound = ground (arith, v.bound, r, f, length-append s.running (q ∷ []));
    live = subst (All (IsLive E)) (sym r) (All-append (IsLive E) s.running (q ∷ []) v.live (l, tt));
  }

  -- Freeing a sequence's slot needs its handle alone.
  pub retag :
      (q q' : Sequence) (s s' : Scheduler E)
      → q'.kv_handle ≡ q.kv_handle
      → s'.running ≡ s.running
      → s'.config ≡ s.config
      → Owns tensors s'.kv_cache (handles s.running ++ (q.kv_handle ∷ []))
      → IsAdmitting q s
      → IsAdmitting q' s'
  retag q q' s s' h r f o v = record {
    owns =
        subst (λ k. Owns tensors s'.kv_cache (handles s'.running ++ (k ∷ []))) (sym h)
          (subst (λ qs. Owns tensors s'.kv_cache (handles qs ++ (q.kv_handle ∷ []))) (sym r) o);
    bound = ground (arith, v.bound, r, f);
    live = subst (All (IsLive E)) (sym r) v.live;
  }

  mark_running-handle : (q : Sequence) → (mark_running q).kv_handle ≡ q.kv_handle
  unfolding mark_running
  mark_running-handle q = ground arith

  pub prefill_and_run-IsSound :
      (q : Sequence) (s : Scheduler E)
      → IsAdmitting q s
      → IsLive E (mark_running q)
      → IsSound E (prefill_and_run E q s)
  unfolding prefill_and_run release
  prefill_and_run-IsSound q s v l = elim (Pass-cases result) [
    | inr (e, failure) ↦
        rw (failure, prefill_and_run)
          (release-IsSound q s1
            (release E q
              (record s1 { shared = send_error E q.sender (prefill_failed q.id e) s.shared }))
            (v1 q refl) refl refl refl)
    | inl (u, success) ↦
        rw (success, prefill_and_run)
          (elim (Bool-cases (drop_if_gone E (mark_running q) s1).0) [
            | inl gone ↦ rw gone (
                release-IsSound (mark_running q) s1 (drop_if_gone E (mark_running q) s1).1
                  (v1 (mark_running q) (mark_running-handle q)) d.running d.config
                  (ground (arith, d.cache, gone)))
            | inr here ↦ rw here (
                push-IsSound (mark_running q) s1
                  (record (drop_if_gone E (mark_running q) s1).1 {
                    running =
                        (drop_if_gone E (mark_running q) s1).1.running ++ (mark_running q ∷ []);
                  })
                  (v1 (mark_running q) (mark_running-handle q)) l
                  (ap (λ qs. qs ++ (mark_running q ∷ [])) d.running) d.config
                  (ground (arith, d.cache, here)))
          ])
  ]
    where
      result : Pass (Unit {0})
      result = (prefill backend q.prompt_tokens q.kv_handle s.kv_cache).0

      s1 : Scheduler E
      s1 = record s { kv_cache = (prefill backend q.prompt_tokens q.kv_handle s.kv_cache).1 }

      d : Dropped (mark_running q) s1 (drop_if_gone E (mark_running q) s1)
      d = drop-Dropped (mark_running q) s1

      v1 : (q' : Sequence) → q'.kv_handle ≡ q.kv_handle → IsAdmitting q' s1
      v1 q' h =
          let w = prefill-Writes tensors backend q.prompt_tokens q.kv_handle s.kv_cache in
          retag q q' s s1 h refl refl
            (Owns-same tensors s.kv_cache s1.kv_cache (handles s.running ++ (q.kv_handle ∷ []))
              (Writes-IsSlab tensors w v.owns.slab) (Writes-SameSlots tensors w).allocated v.owns)
            v
