-- ===== src/Scheduler/Live.antt =====
-- What holds of each running sequence, and of the scheduler between two rounds.
use hotbatch.Base.{◌+◌, ◌≤◌, ◌<◌, ◌≡◌, ◌⊎◌, false, none, List, [], ◌∷◌, arith, length, All}
use hotbatch.KvCache.{KvHandle}
use hotbatch.KvCache.Owners.{Owns}
use hotbatch.Sequence.{Sequence, is_done, decode_position}
use hotbatch.Sequence.Emit.{IsFlushed}
use hotbatch.Sequence.Limit.{IsWithin}
use hotbatch.Scheduler.Defs.{Engine, Scheduler, Exec, finished, out_of_fuel}

abbrev pub handles : List Sequence → List KvHandle
handles [] = []
handles (q ∷ qs) = q.kv_handle ∷ handles qs

-- The step ends with a result that has the property, or the model's fuel was too little. It does not
-- panic.
abbrev pub Safe {ℓ κ} : {A : Type ℓ} → (A → Type κ) → Exec A → Type (ℓ ⊔ κ)
Safe {A = A} P e = ((a : A) × (e ≡ finished a) × P a) ⊎ (e ≡ out_of_fuel)

module _ (E : Engine) where
  open E use {tensors, backend}

  -- A sequence that goes on: not done, all shown that may be shown, below its token limit, and with
  -- room for all its tokens in the model.
  pub record IsLive (q : Sequence) : Type 0 where
    pub going : is_done q ≡ false
    pub open_end : q.finish_reason ≡ none
    pub flushed : IsFlushed q
    pub within : IsWithin q
    pub prompted : 0 < length q.prompt_tokens
    pub room : length q.prompt_tokens + q.sampler.max_new_tokens ≤ backend.max_positions

  pub IsLive-position : (q : Sequence) → IsLive q → decode_position q < backend.max_positions
  unfolding decode_position
  IsLive-position q v = omega (arith, v.within.open_below v.open_end, v.prompted, v.room)

  -- Between two rounds: the running sequences hold exactly the allocated slots, there are no more of
  -- them than allowed, and each goes on.
  pub record IsSound (s : Scheduler E) : Type 0 where
    pub owns : Owns tensors s.kv_cache (handles s.running)
    pub bound : length s.running ≤ s.config.max_running_seqs
    pub live : All IsLive s.running
