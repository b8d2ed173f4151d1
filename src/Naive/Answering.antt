-- ===== src/Naive/Answering.antt =====
-- `run_naive_request` from start to end.
use hotbatch.Base.{
  ℕ, ◌<◌, ◌≡◌, refl, sym, ◌∙◌, subst, ◌⊎◌, inl, inr, Option, none, some, [], ◌∷◌, arith, max,
  Bool-cases, Option-cases,
}
use hotbatch.Base.Checked.{saturating_add}
use hotbatch.KvCache.{SlabKvCache, KvHandle, allocate, free, allocated_slots, no_room}
use hotbatch.KvCache
use hotbatch.KvCache.Invariant.{new-IsSlab}
use hotbatch.KvCache.Handles.{allocate_total}
use hotbatch.KvCache.Owners.{Owns, Owns-free, Owns-allocate, Owns-same}
use hotbatch.Sequence.{
  GenerationRequest, Sequence, start, mark_running, is_done, safe_end, prompt_len, max_new_tokens,
}
use hotbatch.Sequence
use hotbatch.Sequence.Emit.{start-IsFlushed}
use hotbatch.Message.{shutting_down, naive_failed, cache_failed}
use hotbatch.Metrics.{record_cancelled, set_running}
use hotbatch.Queue.{Shared}
use hotbatch.Model.{prefill}
use hotbatch.Model.Frame.{prefill-Writes, Writes-IsSlab, Writes-SameSlots}
use hotbatch.Scheduler.{Engine, Exec, finished, note, response_is_done}
use hotbatch.Scheduler.Starting.{Pass-cases}
use hotbatch.Naive.Defs.{
  Answer, fine, failure, Turn, shutdown_came, response_over, consumer_gone, got_model, ready,
  prefill_and_decode, generate_one, run_naive_request,
}
use hotbatch.Naive.Ending.{IsGoing}
use hotbatch.Naive.Loop.{Looped, decode_loop-Looped}

Turn-cases :
    (t : Turn) → (t ≡ shutdown_came) ⊎ (t ≡ response_over) ⊎ (t ≡ consumer_gone) ⊎ (t ≡ got_model)
Turn-cases shutdown_came = inl refl
Turn-cases response_over = inr (inl refl)
Turn-cases consumer_gone = inr (inr (inl refl))
Turn-cases got_model = inr (inr (inr refl))

module _ (E : Engine) (wait_for_model : E.runtime.World → Turn × E.runtime.World) (token : ℕ) where
  open E use {tensors, runtime, backend}

  start-IsGoing :
      (req : GenerationRequest) (h : KvHandle)
      → 0 < max_new_tokens req
      → IsGoing (max_new_tokens req) (mark_running (start req h))
  unfolding start mark_running is_done safe_end max_new_tokens
  start-IsGoing req h pos = record {
    going = refl;
    open_end = refl;
    flushed = start-IsFlushed req h;
    within = record { open_below = λ e. pos; bounded = omega arith };
    left = omega arith;
  }

  start-handle :
      (req : GenerationRequest) (h : KvHandle) → (mark_running (start req h)).kv_handle ≡ h
  unfolding start mark_running
  start-handle req h = refl

  prefill_and_decode-Looped :
      (fuel n : ℕ) (q : Sequence) (c : SlabKvCache tensors.Tensor) (s : Shared runtime)
      → Owns tensors c (q.kv_handle ∷ [])
      → (mark_running q).kv_handle ≡ q.kv_handle
      → IsGoing n (mark_running q)
      → n < fuel
      → Looped E wait_for_model token q (prefill_and_decode E wait_for_model token fuel q c s)
  unfolding prefill_and_decode
  prefill_and_decode-Looped fuel n q c s o k v l =
      let shut = response_is_done E token s in
      let over = response_is_done E q.response_done shut.1 in
      let c' = (prefill backend q.prompt_tokens q.kv_handle c).1 in
      let shut' = response_is_done E token over.1 in
      let over' = response_is_done E q.response_done shut'.1 in
      let w = prefill-Writes tensors backend q.prompt_tokens q.kv_handle c in
      let o' : Owns tensors c' (q.kv_handle ∷ []) =
        Owns-same tensors c c' (q.kv_handle ∷ []) (Writes-IsSlab tensors w o.slab)
          (Writes-SameSlots tensors w).allocated o in
      elim (Bool-cases shut.0) [
        | inl b ↦
            rw (b, prefill_and_decode)
              (record {
                answer = failure shutting_down;
                result = q;
                cache = c;
                shared = shut.1;
                returned = refl;
                handle = refl;
                owns = o;
              })
        | inr b ↦ elim (Bool-cases over.0) [
          | inl d ↦
              rw (b, d, prefill_and_decode)
                (record {
                  answer = fine;
                  result = q;
                  cache = c;
                  shared = over.1;
                  returned = refl;
                  handle = refl;
                  owns = o;
                })
          | inr d ↦ elim (Pass-cases (prefill backend q.prompt_tokens q.kv_handle c).0) [
            | inr (e, bad) ↦
                rw (b, d, bad, prefill_and_decode)
                  (record {
                    answer = failure (naive_failed e);
                    result = q;
                    cache = c';
                    shared = over.1;
                    returned = refl;
                    handle = refl;
                    owns = o';
                  })
            | inl (u, good) ↦ elim (Bool-cases shut'.0) [
              | inl b' ↦
                  rw (b, d, good, b', prefill_and_decode)
                    (record {
                      answer = failure shutting_down;
                      result = q;
                      cache = c';
                      shared = shut'.1;
                      returned = refl;
                      handle = refl;
                      owns = o';
                    })
              | inr b' ↦ elim (Bool-cases over'.0) [
                | inl d' ↦
                    rw (b, d, good, b', d', prefill_and_decode)
                      (record {
                        answer = fine;
                        result = q;
                        cache = c';
                        shared = over'.1;
                        returned = refl;
                        handle = refl;
                        owns = o';
                      })
                | inr d' ↦
                    let r =
                      decode_loop-Looped E wait_for_model token fuel n (mark_running q) c' over'.1
                        (subst (λ h. Owns tensors c' (h ∷ [])) (sym k) o') (inr v) l in
                    rw (b, d, good, b', d', prefill_and_decode)
                      (record {
                        answer = r.answer;
                        result = r.result;
                        cache = r.cache;
                        shared = r.shared;
                        returned = r.returned;
                        handle = r.handle ∙ k;
                        owns = subst (λ h. Owns tensors r.cache (h ∷ [])) k r.owns;
                      })
              ]
            ]
          ]
        ]
      ]

  -- An answer, and a cache, if one was made, with every slot given back.
  pub record Answered (e : Exec (Answer × Option (SlabKvCache tensors.Tensor) × Shared runtime))
      : Type 0 where
    pub answer : Answer
    pub cache : Option (SlabKvCache tensors.Tensor)
    pub shared : Shared runtime
    pub returned : e ≡ finished (answer, cache, shared)
    pub released :
        (cache ≡ none)
        ⊎ ((c : SlabKvCache tensors.Tensor) × (cache ≡ some c) × (allocated_slots c ≡ 0))

  early : (a : Answer) (s : Shared runtime) → Answered (finished (a, none, s))
  early a s = record { answer = a; cache = none; shared = s; returned = refl; released = inl refl }

  new-Owns : (a b c d f : ℕ) → Owns tensors (KvCache.new a b c d f) []
  unfolding KvCache.new
  new-Owns a b c d f = record {
    slab = new-IsSlab tensors a b c d f;
    current = tt;
    exact = λ i. refl;
    many = refl;
  }

  generate_one-Answered :
      (fuel : ℕ) (shape : ℕ × ℕ × ℕ) (req : GenerationRequest) (s : Shared runtime)
      → 0 < max_new_tokens req
      → max_new_tokens req < fuel
      → Answered (generate_one E wait_for_model token fuel shape req s)
  unfolding generate_one Sequence.new allocated_slots
  generate_one-Answered fuel (layers, heads, dim) req s pos l =
      let len = max (saturating_add (prompt_len req) (max_new_tokens req)) 1 in
      let c0 = KvCache.new {Tensor = tensors.Tensor} 1 len layers heads dim in
      let o0 = new-Owns 1 len layers heads dim in
      elim (allocate_total c0 (prompt_len req) (max_new_tokens req) o0.slab.partition) [
        | inr (full, e) ↦
            rw (e, generate_one, Sequence.new)
              (record {
                answer = failure (
                    naive_failed (
                      cache_failed (no_room (prompt_len req) (max_new_tokens req) c0.max_seq_len)));
                cache = none;
                shared = s;
                returned = refl;
                released = inl refl;
              })
        | inl (fits, (h, c, e, fresh, current, sized, grown)) ↦
            let q = start req h in
            let r =
              prefill_and_decode-Looped fuel (max_new_tokens req) q c (note E (set_running 1) s)
                (Owns-allocate tensors c0 [] (prompt_len req) (max_new_tokens req) h c o0 e)
                (start-handle req h) (start-IsGoing req h pos) l in
            let o =
              Owns-free tensors r.cache [] r.result.kv_handle []
                (subst (λ k. Owns tensors r.cache (k ∷ [])) (sym r.handle) r.owns) in
            rw (e, r.returned, generate_one, Sequence.new)
              (record {
                answer = r.answer;
                cache = some (free r.cache r.result.kv_handle);
                shared = note E (set_running 0) r.shared;
                returned = refl;
                released = inr (free r.cache r.result.kv_handle, refl, sym o.many);
              })
      ]

  -- The naive engine answers every request that asks for at least one token: with more fuel than that
  -- limit, `run_naive_request` returns an answer, without a panic, whatever the channels, the tokens,
  -- the model and the wait for its lock do; and if it made a cache, the cache's slot is free again.
  pub run_naive_request-Answered :
      (fuel : ℕ) (shape : ℕ × ℕ × ℕ) (req : GenerationRequest) (s : Shared runtime)
      → 0 < max_new_tokens req
      → max_new_tokens req < fuel
      → Answered (run_naive_request E wait_for_model token fuel shape req s)
  unfolding run_naive_request
  run_naive_request-Answered fuel shape req s pos l =
      let first = ready E wait_for_model token req s in
      let turn = (wait_for_model first.1.world).0 in
      let s2 = record first.1 { world = (wait_for_model first.1.world).1 } in
      let second = ready E wait_for_model token req s2 in
      elim (Option-cases first.0) [
        | inr (a, e) ↦ rw (e, run_naive_request) (early a first.1)
        | inl e ↦ elim (Turn-cases turn) [
          | inl t ↦ rw (e, t, run_naive_request) (early (failure shutting_down) s2)
          | inr (inl t) ↦ rw (e, t, run_naive_request) (early fine s2)
          | inr (inr (inl t)) ↦
              rw (e, t, run_naive_request) (early fine (note E record_cancelled s2))
          | inr (inr (inr t)) ↦ elim (Option-cases second.0) [
            | inr (a, f) ↦ rw (e, t, f, run_naive_request) (early a second.1)
            | inl f ↦
                rw (e, t, f, run_naive_request)
                  (generate_one-Answered fuel shape req second.1 pos l)
          ]
        ]
      ]
