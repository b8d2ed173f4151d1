-- ===== src/Tests/Serving.antt =====
-- A scheduler with one sequence running, one request waiting and one about to arrive.
use hotbatch.Base.{
  Bool, ◌<◌, ◌≤◌, ◌≡◌, refl, ◌⊎◌, true, false, none, some, List, [], ◌∷◌, ◌++◌, arith,
  if◌then◌else◌, length, All,
}
use hotbatch.KvCache.Owners.{Owns, Owns-allocate}
use hotbatch.Sequence.{
  GenerationRequest, stop_reached, start, mark_running, prompt_len, max_new_tokens,
}
use hotbatch.Message.{RequestError, token, done}
use hotbatch.Delivery.{try_send_error, try_send_tokens, try_send_tokens_atomic}
use hotbatch.Metrics.{set_running}
use hotbatch.Queue.{QueueState, Shared, pruned, submit, submit_all, try_pop, close_and_drain}
use hotbatch.Queue.Bound.{IsBounded, Retained, submit_lem, try_pop_lem, closed_forever}
use hotbatch.Model.{forward}
use hotbatch.Scheduler.{
  Config, Scheduler, finished, note, validate_request, remove_sequences_past_model_capacity,
  remove_closed_sequences, admit, decode, build_decode_batch, Control, round, shut_down, run,
}
use hotbatch.Scheduler.Live.{IsSound, Safe}
use hotbatch.Scheduler.Reaping.{remove_closed-IsSound, remove_sequences_past_model_capacity-id}
use hotbatch.Scheduler.Starting.{IsValid, start-IsLive, validate_request_lem}
use hotbatch.Scheduler.Ending.{Finite, admit-Finishes, work}
use hotbatch.Scheduler.Decoding.{forward-fits, decode-IsSound}
use hotbatch.Scheduler.Progress.{IsDrained, decode_times, decode_times-IsDrained}
use hotbatch.Scheduler.Running.{IsShutDown, shut_down-IsShutDown, run-Safe}
use hotbatch.Scheduler.Rounds.{round-finishes}
use hotbatch.Tests.Instances.{Room, tensors, runtime, backend, engine, request_at}
use hotbatch.Tests.Cache.{cache, handle, filled, cache-IsSlab, allocated_here}

abbrev room : Room
room = record { log = []; coming = request_at 3 2 ∷ [] }

abbrev waiting : QueueState
waiting = record { requests = request_at 2 0 ∷ []; max_depth = 4; closed = false }

abbrev shared : Shared runtime
shared = record { queue = waiting; metrics = []; world = room }

abbrev config : Config
config = record { max_running_seqs = 2; max_new_tokens = 4; max_seq_len = 16; max_queue_depth = 4 }

abbrev busy : Scheduler engine
busy = record {
  config = config;
  shared = shared;
  running = mark_running (start (request_at 1 0) handle) ∷ [];
  kv_cache = filled;
}

nobody : Owns tensors cache []
nobody = record { slab = cache-IsSlab; current = tt; exact = λ i. refl; many = refl }

valid : IsValid engine busy (request_at 1 0)
unfolding prompt_len max_new_tokens
valid = record {
  prompted = omega arith;
  asked = omega arith;
  representable = omega arith;
  limited = omega arith;
  seq_len = omega arith;
  kv_len = omega arith;
  model_len = omega arith;
}

busy-IsSound : IsSound engine busy
unfolding start mark_running
busy-IsSound = record {
  owns = Owns-allocate tensors cache [] 2 3 handle filled nobody allocated_here;
  bound = omega arith;
  live = (start-IsLive engine busy (request_at 1 0) handle valid, tt);
}

-- The one request to come is all that the other tasks have.
abbrev finite : Finite runtime
unfolding try_send_error
finite = record {
  pending = λ w. length w.coming;
  at_arrivals = λ w. omega arith;
  at_is_closed = λ c w. omega arith;
  at_is_cancelled = λ c w. omega arith;
  at_try_send = λ c m w. omega arith;
}

run-Safe_example : Safe (IsShutDown engine) (run engine 9 9 7 busy)
run-Safe_example = run-Safe engine 9 9 7 busy busy-IsSound

round-finishes_example :
    (r : Control × Scheduler engine) × (round engine 3 busy ≡ finished r) × IsSound engine r.1
unfolding work try_send_error
round-finishes_example = round-finishes engine finite 3 busy busy-IsSound (omega arith)

admit-Finishes_example :
    (s : Scheduler engine) × (admit engine 3 busy ≡ finished s) × IsSound engine s
unfolding work try_send_error
admit-Finishes_example = admit-Finishes engine finite 3 busy busy-IsSound (omega arith)

decode-IsSound_example :
    (s : Scheduler engine) × (decode engine busy ≡ finished s) × IsSound engine s
decode-IsSound_example = decode-IsSound engine busy busy-IsSound

decode_times-IsDrained_example :
    (s : Scheduler engine) × (decode_times engine 3 busy ≡ finished s) × IsDrained engine s
unfolding start mark_running
decode_times-IsDrained_example = decode_times-IsDrained engine 3 busy busy-IsSound (omega arith, tt)

forward-fits_example :
    forward backend (build_decode_batch busy.running) filled
    ≡ backend.forward_pass (build_decode_batch busy.running) filled
forward-fits_example = forward-fits engine busy filled busy-IsSound

shut_down-IsShutDown_example : IsShutDown engine (shut_down engine busy)
shut_down-IsShutDown_example = shut_down-IsShutDown engine busy busy-IsSound

validate_request_lem_example :
    (validate_request engine busy (request_at 2 0) ≡ none) × IsValid engine busy (request_at 2 0)
    ⊎ ((e : RequestError) × (validate_request engine busy (request_at 2 0) ≡ some e)
        × (¬ IsValid engine busy (request_at 2 0)))
validate_request_lem_example = validate_request_lem engine busy (request_at 2 0)

remove_closed-IsSound_example : IsSound engine (remove_closed_sequences engine busy)
remove_closed-IsSound_example = remove_closed-IsSound engine busy busy-IsSound

remove_sequences_past_model_capacity-id_example :
    remove_sequences_past_model_capacity engine busy
    ≡ record busy { shared = note engine (set_running 1) shared }
remove_sequences_past_model_capacity-id_example =
    remove_sequences_past_model_capacity-id engine busy busy-IsSound

waiting-IsBounded : IsBounded waiting
waiting-IsBounded = record { depth = omega arith; drained = λ c. absurd (ground arith) }

submit_lem_example :
    IsBounded (submit runtime (request_at 5 1) shared).1.queue
    × ((submit runtime (request_at 5 1) shared).1.queue.closed ≡ false)
    × ((submit runtime (request_at 5 1) shared).1.queue.max_depth ≡ 4)
    × ((alive : List GenerationRequest) × Retained runtime waiting.requests shared.world alive
          (submit runtime (request_at 5 1) shared).1.world
        × (((submit runtime (request_at 5 1) shared).0 ≡ true)
              × (◌≡◌ {A = Bool} false false)
              × (length alive < 4)
              × ((submit runtime (request_at 5 1) shared).1.queue.requests
                  ≡ alive ++ (request_at 5 1 ∷ []))
            ⊎ ((submit runtime (request_at 5 1) shared).0 ≡ false)
              × ((◌≡◌ {A = Bool} false true) ⊎ (4 ≤ length alive))
              × ((submit runtime (request_at 5 1) shared).1.queue.requests ≡ alive)))
submit_lem_example = submit_lem runtime (request_at 5 1) shared waiting-IsBounded

try_pop_lem_example :
    IsBounded (try_pop runtime shared).1.queue
    × (((pruned runtime shared).queue.requests ≡ [])
          × ((try_pop runtime shared).0 ≡ none)
          × ((try_pop runtime shared).1.queue ≡ (pruned runtime shared).queue)
        ⊎ ((before : List GenerationRequest) × (req : GenerationRequest) × (behind : List
              GenerationRequest)
            × ((pruned runtime shared).queue.requests ≡ before ++ (req ∷ behind))
            × ((try_pop runtime shared).0 ≡ some req)
            × ((try_pop runtime shared).1.queue.requests ≡ before ++ behind)
            × All (λ r. r.priority < req.priority) before
            × All (λ r. r.priority ≤ req.priority) behind))
try_pop_lem_example = try_pop_lem runtime shared waiting-IsBounded

closed_forever_example :
    ((close_and_drain runtime shared).0 ≡ request_at 2 0 ∷ [])
    × ((submit runtime
          (request_at 5 1)
          (submit_all runtime (request_at 3 2 ∷ []) (close_and_drain runtime shared).1)).0
        ≡ false)
    × ((submit_all runtime (request_at 3 2 ∷ []) (close_and_drain runtime shared).1).queue.requests
        ≡ [])
closed_forever_example = closed_forever runtime shared (request_at 3 2 ∷ []) (request_at 5 1)

try_send_tokens_atomic_example :
    runtime.sent (try_send_tokens runtime 4 (1 ∷ 2 ∷ []) (some stop_reached) room).1 4 ≡ (
      if (try_send_tokens runtime 4 (1 ∷ 2 ∷ []) (some stop_reached) room).0
      then token 1 ∷ token 2 ∷ done stop_reached ∷ []
      else [])
try_send_tokens_atomic_example =
    try_send_tokens_atomic runtime 4 4 (1 ∷ 2 ∷ []) (some stop_reached) room
