-- ===== src/Sequence/Defs.antt =====
-- The sequence's state and its operations. Channels and cancellation tokens are named by numbers;
-- what the runtime answers about them is in module Runtime. The time `now` is an argument.
use mathlib.Core.Option
use hotbatch.Base.{
  ℕ, ◌-◌, Bool, true, false, ◌||◌, Option, none, some, List, [], ◌∷◌, ◌++◌, leb, ◌==◌,
  if◌then◌else◌, length, take, drop, Result, ok, err, panic,
}
use hotbatch.Base.Checked.{saturating_add}
use hotbatch.KvCache.{KvHandle, SlabKvCache, KvError, allocate}
use hotbatch.Sampler.{SamplerConfig, Sampler}
use hotbatch.Sampler
use hotbatch.Sequence.Stops.{matched_stop_len, pending_stop_prefix_len, unwrap_or}

pub data FinishReason : Type 0 where
  length_reached stop_reached : FinishReason

pub data SequenceState : Type 0 where
  prefilling running finished cancelled failed : SequenceState

pub record GenerationRequest : Type 0 where
  pub id : ℕ
  pub prompt_tokens : List ℕ
  pub sampler_config : SamplerConfig
  pub sender : ℕ
  pub priority : ℕ
  pub created_at : ℕ
  pub prompt_hash : ℕ
  pub response_done : ℕ

unfoldable pub prompt_len : GenerationRequest → ℕ
prompt_len req = length req.prompt_tokens

unfoldable pub max_new_tokens : GenerationRequest → ℕ
max_new_tokens req = req.sampler_config.max_new_tokens

pub record Sequence : Type 0 where
  pub id : ℕ
  pub prompt_tokens : List ℕ
  pub generated_tokens : List ℕ
  pub kv_handle : KvHandle
  pub sampler : Sampler
  pub sender : ℕ
  pub state : SequenceState
  pub finish_reason : Option FinishReason
  pub emitted_tokens : ℕ
  pub terminal_trim_tokens : ℕ
  pub created_at : ℕ
  pub first_token_at : Option ℕ
  pub last_token_at : Option ℕ
  pub prompt_hash : ℕ
  pub response_done : ℕ

pub record TokenTiming : Type 0 where
  pub first_latency : Option ℕ
  pub inter_token_latency : Option ℕ

-- The sequence that `new` makes once it has a handle.
unfoldable pub start : GenerationRequest → KvHandle → Sequence
unfolding Sampler.new
start req h = record {
  id = req.id;
  prompt_tokens = req.prompt_tokens;
  generated_tokens = [];
  kv_handle = h;
  sampler = Sampler.new req.sampler_config;
  sender = req.sender;
  state = prefilling;
  finish_reason = none;
  emitted_tokens = 0;
  terminal_trim_tokens = 0;
  created_at = req.created_at;
  first_token_at = none;
  last_token_at = none;
  prompt_hash = req.prompt_hash;
  response_done = req.response_done;
}

unfoldable pub new :
    {Tensor : Type 0}
    → GenerationRequest
    → SlabKvCache Tensor
    → Result KvError (Sequence × SlabKvCache Tensor)
unfolding start prompt_len max_new_tokens
new req kv = elim (allocate kv (prompt_len req) (max_new_tokens req)) [
  | ok (h, kv') ↦ ok (start req h, kv')
  | err e ↦ err e
  | panic ↦ panic
]

unfoldable pub mark_running : Sequence → Sequence
mark_running s = elim s.state [ prefilling ↦ record s { state = running } | _ ↦ s ]

-- The first half of `append_token`: push the token and take the two latencies.
unfoldable pub stamp : Sequence → ℕ → ℕ → TokenTiming × Sequence
stamp s token now = (
  record {
    first_latency = elim s.first_token_at [ none ↦ some (now - s.created_at) | some t ↦ none ];
    inter_token_latency = Option.map (λ last. now - last) s.last_token_at;
  },
  record s {
    generated_tokens = s.generated_tokens ++ (token ∷ []);
    first_token_at = elim s.first_token_at [ none ↦ some now | some t ↦ some t ];
    last_token_at = some now;
  },
)

abbrev is_some {ℓ} : {A : Type ℓ} → Option A → Bool
is_some none = false
is_some (some a) = true

-- The second half: with no terminal reason yet, find whether this token gives one.
unfoldable pub settle : Sequence → ℕ → Sequence
settle s token = elim s.finish_reason [
  | some r ↦ s
  | none ↦
      let matched = matched_stop_len s.generated_tokens s.sampler.stop_sequences in
      if token == s.sampler.eos_token || is_some matched
      then record s {
        terminal_trim_tokens = unwrap_or matched 1;
        state = finished;
        finish_reason = some stop_reached;
      }
      else if leb s.sampler.max_new_tokens (length s.generated_tokens)
      then record s { state = finished; finish_reason = some length_reached }
      else s
]

unfoldable pub append_token : Sequence → ℕ → ℕ → TokenTiming × Sequence
unfolding stamp settle
append_token s token now = let (timing, pushed) = stamp s token now in (timing, settle pushed token)

unfoldable pub is_done : Sequence → Bool
is_done s = elim s.state [ prefilling ↦ false | running ↦ false | _ ↦ true ]

unfoldable pub cancel : Sequence → Sequence
unfolding is_done
cancel s = if is_done s then s else record s { state = cancelled }

unfoldable pub fail : Sequence → Sequence
unfolding is_done
fail s = if is_done s then s else record s { state = failed }

unfoldable pub is_finished : Sequence → Bool
is_finished s = elim s.state [ finished ↦ true | _ ↦ false ]

unfoldable pub is_cancelled : Sequence → Bool
is_cancelled s = elim s.state [ cancelled ↦ true | _ ↦ false ]

unfoldable pub is_failed : Sequence → Bool
is_failed s = elim s.state [ failed ↦ true | _ ↦ false ]

-- How many of the generated tokens may be shown now.
unfoldable pub safe_end : Sequence → ℕ
safe_end s = elim s.finish_reason [
  | some stop_reached ↦ length s.generated_tokens - s.terminal_trim_tokens
  | some length_reached ↦ length s.generated_tokens
  | none ↦
      length s.generated_tokens
      - pending_stop_prefix_len s.generated_tokens s.sampler.stop_sequences
]

-- `none` is the panic of the slice `generated_tokens[emitted_tokens..safe_end]` when its bounds are
-- in the wrong order; the end is never past the list.
unfoldable pub take_emittable_tokens : Sequence → Option (List ℕ × Sequence)
unfolding safe_end
take_emittable_tokens s =
    if leb s.emitted_tokens (safe_end s)
    then some (
      take (safe_end s - s.emitted_tokens) (drop s.emitted_tokens s.generated_tokens),
      record s { emitted_tokens = safe_end s },
    )
    else none

abbrev last? : List ℕ → Option ℕ
last? [] = none
last? (x ∷ xs) = elim (last? xs) [ none ↦ some x | some y ↦ some y ]

-- `last().copied()` of the generated tokens, then of the prompt, then 0.
unfoldable pub last_token : Sequence → ℕ
last_token s = elim (last? s.generated_tokens) [
  | some t ↦ t
  | none ↦ unwrap_or (last? s.prompt_tokens) 0
]

unfoldable pub decode_position : Sequence → ℕ
decode_position s = saturating_add (length s.prompt_tokens - 1) (length s.generated_tokens)
