-- ===== src/Tests/Generation.antt =====
-- One sequence and its sampler.
use hotbatch.Base.{
  ℕ, ◌≤◌, ◌<◌, ◌≡◌, refl, inl, ◌⊎◌, ◌≢◌, none, some, List, [], ◌∷◌, arith, length, take,
}
use hotbatch.Sampler.{sample}
use hotbatch.Sampler.Range.{sample-lt}
use hotbatch.Sequence.{
  running, Sequence, start, append_token, safe_end, pending_stop_prefix_len, matched_stop_len,
  max_new_tokens,
}
use hotbatch.Sequence.Suffix.{SomeOverlap, pending-max, pending-SomeOverlap}
use hotbatch.Sequence.Matched.{matched-max}
use hotbatch.Sequence.Emit.{generate, generate_shows}
use hotbatch.Sequence.Finish.{Stopped, Exhausted, Continued, append_token_reason}
use hotbatch.Sequence.Limit.{generate_finishes}
use hotbatch.Tests.Instances.{floats, settings, request_at}
use hotbatch.Tests.Cache.{handle}

abbrev pub fresh : Sequence
fresh = record {
  id = 1;
  prompt_tokens = 5 ∷ 6 ∷ [];
  generated_tokens = 1 ∷ [];
  kv_handle = handle;
  sampler = record { config = settings; rng_state = 3 };
  sender = 4;
  state = running;
  finish_reason = none;
  emitted_tokens = 0;
  terminal_trim_tokens = 0;
  created_at = 0;
  first_token_at = some 1;
  last_token_at = some 1;
  prompt_hash = 0;
  response_done = 3;
}

-- The output 1 starts the stop sequence 1 2.
pending-max_example : 1 ≤ pending_stop_prefix_len (8 ∷ 1 ∷ []) ((1 ∷ 2 ∷ []) ∷ [])
pending-max_example =
    pending-max (8 ∷ 1 ∷ []) 1 ((1 ∷ 2 ∷ []) ∷ []) (inl (refl, (omega arith, omega arith, refl)))

pending-SomeOverlap_example :
    (pending_stop_prefix_len (8 ∷ 1 ∷ []) ((1 ∷ 2 ∷ []) ∷ []) ≡ 0)
    ⊎ SomeOverlap
        (8 ∷ 1 ∷ [])
        (pending_stop_prefix_len (8 ∷ 1 ∷ []) ((1 ∷ 2 ∷ []) ∷ []))
        ((1 ∷ 2 ∷ []) ∷ [])
pending-SomeOverlap_example = pending-SomeOverlap (8 ∷ 1 ∷ []) ((1 ∷ 2 ∷ []) ∷ [])

matched-max_example :
    (m : ℕ) × (matched_stop_len (1 ∷ 2 ∷ []) ((1 ∷ 2 ∷ []) ∷ []) ≡ some m) × (2 ≤ m)
matched-max_example =
    matched-max (1 ∷ 2 ∷ []) ((1 ∷ 2 ∷ []) ∷ []) 2
      (inl (refl, refl, (omega arith, omega arith, refl)))

generate_shows_example :
    (outs : List ℕ) × (s' : Sequence) × (generate
        (start (request_at 1 0) handle)
        ((1, 4) ∷ (2, 5) ∷ [])
      ≡ some (outs, s'))
    × (outs ≡ take (safe_end s') s'.generated_tokens)
generate_shows_example = generate_shows (request_at 1 0) handle ((1, 4) ∷ (2, 5) ∷ [])

generate_finishes_example :
    (outs : List ℕ) × (s' : Sequence) × (generate
        (start (request_at 1 0) handle)
        ((1, 4) ∷ (1, 5) ∷ (1, 6) ∷ [])
      ≡ some (outs, s'))
    × (s'.finish_reason ≢ none)
    × (length s'.generated_tokens ≤ 3)
unfolding max_new_tokens
generate_finishes_example =
    generate_finishes (request_at 1 0) handle ((1, 4) ∷ (1, 5) ∷ (1, 6) ∷ []) (omega arith)
      (omega arith)

append_token_reason_example :
    Stopped fresh 2 (append_token fresh 2 9).1
    ⊎ Exhausted fresh 2 (append_token fresh 2 9).1
    ⊎ Continued fresh 2 (append_token fresh 2 9).1
append_token_reason_example = append_token_reason fresh 2 9 refl

sample-lt_example : (sample floats fresh.sampler (4 ∷ 6 ∷ 5 ∷ [])).0 < 3
sample-lt_example = sample-lt floats fresh.sampler (4 ∷ 6 ∷ 5 ∷ []) (omega arith) (omega arith)
