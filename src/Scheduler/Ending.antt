-- ===== src/Scheduler/Ending.antt =====
-- The admission loop ends: when the other tasks have only so many requests left to submit, that many
-- rounds and the waiting requests' are enough.
use hotbatch.Base.{
  ℕ, zero, suc, ◌+◌, ◌≤◌, ◌<◌, ◌≡◌, refl, ap, ◌∙◌, ◌≢◌, ◌⊎◌, inl, inr, some, List, [], ◌∷◌, arith,
  Bool-cases, Option-cases, length, length-append, Result, ok, err, panic,
}
use hotbatch.Sequence.{GenerationRequest, Sequence, mark_running}
use hotbatch.Sequence
use hotbatch.Message.{Message, prefill_failed, admission_failed, invalid_request}
use hotbatch.Model.{prefill}
use hotbatch.Runtime.{Runtime}
use hotbatch.Delivery.{try_send_error}
use hotbatch.Queue.{QueueState, Shared, prune, pruned, submit, submit_all, try_pop, take_best}
use hotbatch.Queue.Order.{take_best-Chosen, take_best-nil}
use hotbatch.Scheduler.Defs.{
  Engine, Scheduler, Exec, finished, panicked, out_of_fuel, validate_request, response_is_done,
  sender_is_closed, send_error, note,
}
use hotbatch.Scheduler.Admission.{
  arrive, pop, drop_if_gone, prefill_and_run, start_sequence, admit_one, admit,
}
use hotbatch.Scheduler.Live.{IsSound}
use hotbatch.Scheduler.Starting.{Pass-cases}
use hotbatch.Scheduler.Admitting.{Finishes, admit-Safe}

new_cases :
    {A B : Type 0} (r : Result B A) → ((a : A) × (r ≡ ok a)) ⊎ ((b : B) × (r ≡ err b)) ⊎ (r ≡ panic)
new_cases (ok a) = inl (a, refl)
new_cases (err b) = inr (inl (b, refl))
new_cases panic = inr (inr refl)

Exec-cases :
    {A : Type 0} (e : Exec A) → ((a : A) × (e ≡ finished a)) ⊎ (e ≡ panicked) ⊎ (e ≡ out_of_fuel)
Exec-cases (finished a) = inl (a, refl)
Exec-cases panicked = inr (inl refl)
Exec-cases out_of_fuel = inr (inr refl)

-- At most `pending w` requests are still to be submitted by other tasks; no call of the scheduler
-- makes them more.
pub record Finite (R : Runtime) : Type 0 where
  pub pending : R.World → ℕ
  pub at_arrivals : (w : R.World) → length (R.arrivals w).0 + pending (R.arrivals w).1 ≤ pending w
  pub at_is_closed : (c : ℕ) (w : R.World) → pending (R.is_closed c w).1 ≤ pending w
  pub at_is_cancelled : (c : ℕ) (w : R.World) → pending (R.is_cancelled c w).1 ≤ pending w
  pub at_try_send :
      (c : ℕ) (m : Message) (w : R.World) → pending (try_send_error R c m w).1 ≤ pending w

module _ (R : Runtime) (F : Finite R) where
  open F use {pending}

  -- The requests that wait and those still to come.
  unfoldable pub work : Shared R → ℕ
  work s = length s.queue.requests + pending s.world

  prune-work :
      (reqs : List GenerationRequest) (w : R.World)
      → (length (prune R reqs w).0 ≤ length reqs) × (pending (prune R reqs w).1 ≤ pending w)
  unfolding prune
  prune-work [] w = (omega arith, omega arith)
  prune-work (req ∷ reqs) w =
      let (l, p) = prune-work reqs (R.is_closed req.sender w).1 in
      (ground (arith, l), ground (arith, p, F.at_is_closed req.sender w))

  pruned-work : (s : Shared R) → work (pruned R s) ≤ work s
  unfolding work pruned
  pruned-work s = let (l, p) = prune-work s.queue.requests s.world in omega (arith, l, p)

  submit-work : (req : GenerationRequest) (s : Shared R) → work (submit R req s).1 ≤ work s + 1
  unfolding work submit
  submit-work req s =
      ground (arith, pruned-work s, length-append (pruned R s).queue.requests (req ∷ []))

  submit_all-work :
      (reqs : List GenerationRequest) (s : Shared R)
      → work (submit_all R reqs s) ≤ work s + length reqs
  unfolding submit_all
  submit_all-work [] s = omega arith
  submit_all-work (req ∷ reqs) s =
      omega (arith, submit_all-work reqs (submit R req s).1, submit-work req s)

  try_pop-work :
      (s : Shared R) (req : GenerationRequest)
      → (try_pop R s).0 ≡ some req
      → work (try_pop R s).1 + 1 ≤ work s
  unfolding work try_pop
  try_pop-work s req e = elim (take_best-Chosen (pruned R s).queue.requests) [
    | inl empty ↦ absurd (ground (arith, ap take_best empty, take_best-nil, e))
    | inr (before, best, behind, split, taken, lo, hi) ↦ ground (
      arith,
      taken,
      pruned-work s,
      split,
      length-append before (best ∷ behind),
      length-append before behind,
    )
  ]

module _ (E : Engine) (F : Finite E.runtime) where
  open E use {runtime}
  open F use {pending}

  -- The queue is as before, and no more is to come.
  pub record Quieter (s s' : Shared runtime) : Type 0 where
    pub queue : s'.queue ≡ s.queue
    pub fewer : pending s'.world ≤ pending s.world

  pub then_ : (s t u : Shared runtime) → Quieter s t → Quieter t u → Quieter s u
  then_ s t u a b = record { queue = b.queue ∙ a.queue; fewer = omega (arith, a.fewer, b.fewer) }

  pub done-Quieter : (c : ℕ) (s : Shared runtime) → Quieter s (response_is_done E c s).1
  unfolding response_is_done
  done-Quieter c s = record { queue = refl; fewer = F.at_is_cancelled c s.world }

  closed-Quieter : (c : ℕ) (s : Shared runtime) → Quieter s (sender_is_closed E c s).1
  unfolding sender_is_closed
  closed-Quieter c s = record { queue = refl; fewer = F.at_is_closed c s.world }

  error-Quieter : (c : ℕ) (m : Message) (s : Shared runtime) → Quieter s (send_error E c m s)
  unfolding send_error
  error-Quieter c m s = record { queue = refl; fewer = F.at_try_send c m s.world }

  pub both-Quieter :
      (c d : ℕ) (s : Shared runtime) → Quieter s (sender_is_closed E d (response_is_done E c s).1).1
  both-Quieter c d s =
      then_ s (response_is_done E c s).1 _ (done-Quieter c s)
        (closed-Quieter d (response_is_done E c s).1)

  drop-Quieter : (q : Sequence) (s : Scheduler E) → Quieter s.shared (drop_if_gone E q s).1.shared
  unfolding drop_if_gone note
  drop-Quieter q s =
      let a = done-Quieter q.response_done s.shared in
      let b = both-Quieter q.response_done q.sender s.shared in
      record { queue = ground (arith, a.queue, b.queue); fewer = ground (arith, a.fewer, b.fewer) }

  prefill-Quieter :
      (q : Sequence) (s : Scheduler E) → Quieter s.shared (prefill_and_run E q s).shared
  unfolding prefill_and_run
  prefill-Quieter q s =
      let kv = (prefill E.backend q.prompt_tokens q.kv_handle s.kv_cache).1 in
      let d = drop-Quieter (mark_running q) (record s { kv_cache = kv }) in
      elim (Pass-cases (prefill E.backend q.prompt_tokens q.kv_handle s.kv_cache).0) [
        | inl (u, ok_) ↦
            rw (ok_, prefill_and_run)
              (record { queue = ground (arith, d.queue); fewer = ground (arith, d.fewer) })
        | inr (e, failure) ↦
            rw (failure, prefill_and_run) (error-Quieter q.sender (prefill_failed q.id e) s.shared)
      ]

  start-Quieter :
      (req : GenerationRequest) (s s' : Scheduler E)
      → start_sequence E req s ≡ finished s'
      → Quieter s.shared s'.shared
  unfolding start_sequence
  start-Quieter req s s' e = elim (new_cases (Sequence.new req s.kv_cache)) [
    | inl ((q, kv), made) ↦
        let d = drop-Quieter q (record s { kv_cache = kv }) in
        let s1 = (drop_if_gone E q (record s { kv_cache = kv })).1 in
        let p = then_ s.shared s1.shared (prefill_and_run E q s1).shared d (prefill-Quieter q s1) in
        record {
          queue = ground (arith, made, e, d.queue, p.queue);
          fewer = ground (arith, made, e, d.fewer, p.fewer);
        }
    | inr (inl (x, refused)) ↦
        let q = error-Quieter req.sender (admission_failed req.id x) s.shared in
        record {
          queue = ground (arith, refused, e, q.queue);
          fewer = ground (arith, refused, e, q.fewer);
        }
    | inr (inr lost) ↦ absurd (ground (arith, lost, e))
  ]

  admit_one-Quieter :
      (req : GenerationRequest) (s s' : Scheduler E)
      → admit_one E req s ≡ finished s'
      → Quieter s.shared s'.shared
  unfolding admit_one note
  admit_one-Quieter req s s' e =
      let over = response_is_done E req.response_done s.shared in
      let closed = sender_is_closed E req.sender over.1 in
      let a = done-Quieter req.response_done s.shared in
      let b = both-Quieter req.response_done req.sender s.shared in
      elim (Bool-cases over.0) [
        | inl done ↦ record { queue = ground (arith, a.queue); fewer = ground (arith, a.fewer) }
        | inr wanted ↦ elim (Bool-cases closed.0) [
          | inl gone ↦ record { queue = ground (arith, b.queue); fewer = ground (arith, b.fewer) }
          | inr here ↦ elim (Option-cases (validate_request E s req)) [
            | inl valid ↦
                then_ s.shared closed.1 s'.shared b
                  (start-Quieter req (record s { shared = closed.1 }) s' (ground arith))
            | inr (x, bad) ↦
                let q = error-Quieter req.sender (invalid_request x) closed.1 in
                record {
                  queue = ground (arith, b.queue, q.queue);
                  fewer = ground (arith, b.fewer, q.fewer);
                }
          ]
        ]
      ]

  admit_one-ends : (req : GenerationRequest) (s : Scheduler E) → admit_one E req s ≢ out_of_fuel
  unfolding admit_one start_sequence
  admit_one-ends req s e = ground (arith, e)

  arrive-work : (s : Shared runtime) → work runtime F (arrive E s) ≤ work runtime F s
  unfolding work arrive
  arrive-work s = omega (
    arith,
    submit_all-work runtime F (runtime.arrivals s.world).0
        (record s { world = (runtime.arrivals s.world).1 }),
    F.at_arrivals s.world,
  )

  pop-work :
      (s : Scheduler E) (req : GenerationRequest)
      → (pop E s).0 ≡ some req
      → work runtime F (pop E s).1.shared + 1 ≤ work runtime F s.shared
  unfolding pop
  pop-work s req e =
      omega (arith, try_pop-work runtime F (arrive E s.shared) req e, arrive-work s.shared)

  -- A panic aside, the loop ends within its fuel.
  admit_enough :
      (fuel : ℕ) (s : Scheduler E) → work runtime F s.shared < fuel → admit E fuel s ≢ out_of_fuel
  unfolding admit work
  admit_enough zero s l e = absurd (omega arith)
  admit_enough (suc fuel) s l e = elim (Option-cases (pop E s).0) [
    | inl none_left ↦ ground (arith, none_left, e)
    | inr (req, next) ↦ elim (Exec-cases (admit_one E req (pop E s).1)) [
      | inl (s', one) ↦
          let q = admit_one-Quieter req (pop E s).1 s' one in
          ground (
            arith,
            next,
            one,
            e,
            admit_enough fuel s' (
                ground (
                  arith,
                  ap length (ap (λ (x : QueueState). x.requests) q.queue),
                  q.fewer,
                  pop-work s req next,
                )),
          )
      | inr (inl lost) ↦ ground (arith, next, lost, e)
      | inr (inr starved) ↦ absurd (admit_one-ends req (pop E s).1 starved)
    ]
  ]

  -- With more fuel than the requests that wait and those still to come, the admission loop of a sound
  -- scheduler returns, and the scheduler is sound after it.
  pub admit-Finishes :
      (fuel : ℕ) (s : Scheduler E)
      → IsSound E s
      → work runtime F s.shared < fuel
      → Finishes E (IsSound E) (admit E fuel s)
  admit-Finishes fuel s v l = elim (admit-Safe E fuel s v) [
    | inl done ↦ done
    | inr starved ↦ absurd (admit_enough fuel s l starved)
  ]
