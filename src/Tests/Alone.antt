-- ===== src/Tests/Alone.antt =====
-- One request served by the naive engine.
use hotbatch.Base.{◌<◌, ℕ, ◌≤◌, ◌≡◌, ◌⊎◌, false, none, some, [], arith}
use hotbatch.Base.Checked.{word}
use hotbatch.Sequence.{max_new_tokens}
use hotbatch.Metrics.{Metrics}
use hotbatch.Queue.{Shared}
use hotbatch.Naive.{Turn, got_model, try_acquire, release_permit, run_naive_request}
use hotbatch.Naive.Permits.{try_acquire_lem}
use hotbatch.Naive.Answering.{Answered, run_naive_request-Answered}
use hotbatch.Tests.Instances.{Room, runtime, engine, request_at}

abbrev quiet : Shared runtime
quiet = record {
  queue = record { requests = []; max_depth = 0; closed = false };
  metrics = [];
  world = record { log = []; coming = [] };
}

abbrev wait_for_model : Room → Turn × Room
wait_for_model w = (got_model, w)

run_naive_request-Answered_example :
    Answered engine wait_for_model 7
      (run_naive_request engine wait_for_model 7 4 (2, 4, 3) (request_at 1 0) quiet)
unfolding max_new_tokens
run_naive_request-Answered_example =
    run_naive_request-Answered engine wait_for_model 7 4 (2, 4, 3) (request_at 1 0) quiet
      (omega arith) (omega arith)

try_acquire_lem_example :
    ((try_acquire 2 1 [] ≡ none) × ((◌≡◌ {A = ℕ} 1 3) ⊎ (1 ≤ 2) × (word ≤ 2)))
    ⊎ ((m' : Metrics) × (try_acquire 2 1 [] ≡ some (2, m'))
        × (2 ≤ 3)
        × (2 < word)
        × ((release_permit 2 m').0 ≡ 1))
try_acquire_lem_example = try_acquire_lem 2 1 [] (omega arith)
