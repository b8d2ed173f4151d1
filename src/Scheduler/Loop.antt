-- ===== src/Scheduler/Loop.antt =====
-- `Scheduler::run`: the loop and the shutdown.
use hotbatch.Base.{ℕ, zero, suc, true, false, List, [], ◌∷◌, if◌then◌else◌, length, is_empty}
use hotbatch.KvCache.{SlabKvCache, free}
use hotbatch.Sequence.{GenerationRequest, Sequence}
use hotbatch.Message.{shutting_down}
use hotbatch.Metrics.{set_running}
use hotbatch.Queue.{Shared, close_and_drain}
use hotbatch.Scheduler.Defs.{
  Engine, Scheduler, Exec, finished, panicked, out_of_fuel, response_is_done, send_error, note,
  remove_closed_sequences, remove_sequences_past_model_capacity,
}
use hotbatch.Scheduler.Admission.{arrive, admit}
use hotbatch.Scheduler.Decode.{decode}

-- Whether the loop goes on.
pub data Control : Type 0 where
  again stop : Control

module _ (E : Engine) where
  open E use {runtime, tensors}

  -- Nothing runs: wait for a request or for the shutdown.
  unfoldable pub wait : Scheduler E → Control × Scheduler E
  wait s =
      let (arrived, w) = runtime.idle s.shared.world in
      ((if arrived then again else stop), record s { shared = record s.shared { world = w } })

  -- The loop body after the test for shutdown. `fuel` bounds the admission loop.
  unfoldable pub round : ℕ → Scheduler E → Exec (Control × Scheduler E)
  unfolding wait
  round fuel s = elim (admit E fuel (remove_closed_sequences E s)) [
    | finished s1 ↦
        let s2 =
          remove_sequences_past_model_capacity E
            (record s1 { shared = note E (set_running (length s1.running)) s1.shared }) in
        if is_empty s2.running then finished (wait s2) else elim (decode E s2) [
          | finished s3 ↦ finished (again, s3)
          | panicked ↦ panicked
          | out_of_fuel ↦ out_of_fuel
        ]
    | panicked ↦ panicked
    | out_of_fuel ↦ out_of_fuel
  ]

  -- `for request in self.queue.close_and_drain()`
  unfoldable pub refuse_all : List GenerationRequest → Shared runtime → Shared runtime
  refuse_all [] s = s
  refuse_all (req ∷ reqs) s = refuse_all reqs (send_error E req.sender shutting_down s)

  -- `for seq in self.running.drain(..)`
  unfoldable pub release_all :
      List Sequence
      → Shared runtime
      → SlabKvCache tensors.Tensor
      → Shared runtime × SlabKvCache tensors.Tensor
  release_all [] s c = (s, c)
  release_all (q ∷ qs) s c =
      release_all qs (send_error E q.sender shutting_down s) (free c q.kv_handle)

  -- What follows the loop.
  unfoldable pub shut_down : Scheduler E → Scheduler E
  unfolding refuse_all release_all
  shut_down s =
      let (waiting, shared) = close_and_drain runtime (arrive E s.shared) in
      let (shared', kv) = release_all s.running (refuse_all waiting shared) s.kv_cache in
      record s { shared = note E (set_running 0) shared'; running = []; kv_cache = kv }

  -- At most `rounds` rounds of the loop, then the shutdown.
  unfoldable pub run : ℕ → ℕ → ℕ → Scheduler E → Exec (Scheduler E)
  run zero fuel token s = out_of_fuel
  run (suc rounds) fuel token s =
      let (cancelled, shared) = response_is_done E token s.shared in
      elim cancelled [
        | true ↦ finished (shut_down (record s { shared = shared }))
        | false ↦ elim (round fuel (record s { shared = shared })) [
          | finished (again, s') ↦ run rounds fuel token s'
          | finished (stop, s') ↦ finished (shut_down s')
          | panicked ↦ panicked
          | out_of_fuel ↦ out_of_fuel
        ]
      ]
