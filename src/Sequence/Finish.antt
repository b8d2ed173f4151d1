-- ===== src/Sequence/Finish.antt =====
-- When and why a sequence finishes.
use hotbatch.Base.{
  ℕ, ◌+◌, ◌≤◌, ◌<◌, ◌≡◌, subst, ◌≢◌, ◌⊎◌, inl, inr, none, some, List, [], ◌∷◌, ◌++◌, arith,
  ℕ_discrete, dec_le, Option-cases, length, length-append,
}
use hotbatch.Sequence.Stops.{matched_stop_len}
use hotbatch.Sequence.Suffix.{SomeEnd}
use hotbatch.Sequence.Matched.{matched-SomeEnd, matched-max}
use hotbatch.Sequence.Defs.{
  FinishReason, length_reached, stop_reached, finished, Sequence, append_token,
}

-- The end-of-text token, or a stop sequence at the end of the output.
abbrev pub IsStop : Sequence → ℕ → Type 0
IsStop s t =
    (t ≡ s.sampler.eos_token)
    ⊎ ((k : ℕ) × SomeEnd (s.generated_tokens ++ (t ∷ [])) k s.sampler.stop_sequences)

-- What `append_token` leaves of a sequence that had no terminal reason.
pub record Stopped (s : Sequence) (t : ℕ) (a : Sequence) : Type 0 where
  pub reason : a.finish_reason ≡ some stop_reached
  pub ended : a.state ≡ finished
  pub why : IsStop s t
  pub longest :
      (k : ℕ)
      → SomeEnd (s.generated_tokens ++ (t ∷ [])) k s.sampler.stop_sequences
      → k ≤ a.terminal_trim_tokens
  pub trimmed :
      SomeEnd (s.generated_tokens ++ (t ∷ [])) a.terminal_trim_tokens s.sampler.stop_sequences
      ⊎ (a.terminal_trim_tokens ≡ 1)

pub record Exhausted (s : Sequence) (t : ℕ) (a : Sequence) : Type 0 where
  pub reason : a.finish_reason ≡ some length_reached
  pub ended : a.state ≡ finished
  pub why : ¬ IsStop s t
  pub limit : s.sampler.max_new_tokens ≤ length s.generated_tokens + 1

pub record Continued (s : Sequence) (t : ℕ) (a : Sequence) : Type 0 where
  pub reason : a.finish_reason ≡ none
  pub unchanged : a.state ≡ s.state
  pub why : ¬ IsStop s t
  pub limit : length s.generated_tokens + 1 < s.sampler.max_new_tokens

module _ (s : Sequence) (t now : ℕ) (open_end : s.finish_reason ≡ none) where
  abbrev after : Sequence
  after = (append_token s t now).1

  abbrev gen' : List ℕ
  gen' = s.generated_tokens ++ (t ∷ [])

  Stopped-by : (m : ℕ) → matched_stop_len gen' s.sampler.stop_sequences ≡ some m → Stopped s t after
  unfolding append_token
  Stopped-by m e = record {
    reason = ground (arith, e, open_end);
    ended = ground (arith, e, open_end);
    why = inr (m, matched-SomeEnd gen' s.sampler.stop_sequences m e);
    longest = λ k h.
        let (j, f, l) = matched-max gen' s.sampler.stop_sequences k h in
        ground (arith, e, open_end, f, l);
    trimmed =
        let trim : m ≡ after.terminal_trim_tokens = ground (arith, e, open_end) in
        inl (
          subst (λ j. SomeEnd gen' j s.sampler.stop_sequences) trim
            (matched-SomeEnd gen' s.sampler.stop_sequences m e));
  }

  Stopped-eos :
      matched_stop_len gen' s.sampler.stop_sequences ≡ none
      → t ≡ s.sampler.eos_token
      → Stopped s t after
  unfolding append_token
  Stopped-eos e eos = record {
    reason = ground (arith, e, eos, open_end);
    ended = ground (arith, e, eos, open_end);
    why = inl eos;
    longest = λ k h.
        let (j, f, l) = matched-max gen' s.sampler.stop_sequences k h in
        absurd (ground (arith, e, f));
    trimmed = inr (ground (arith, e, eos, open_end));
  }

  no-IsStop :
      matched_stop_len gen' s.sampler.stop_sequences ≡ none → t ≢ s.sampler.eos_token → ¬ IsStop s t
  no-IsStop e ne (inl eos) = ne eos
  no-IsStop e ne (inr (k, h)) =
      let (j, f, l) = matched-max gen' s.sampler.stop_sequences k h in ground (arith, e, f)

  -- On a sequence with no terminal reason `append_token` stops at the end-of-text token or at a stop
  -- sequence, whichever limit is reached at the same time, and then trims the longest stop sequence
  -- that ends the output (the end-of-text token alone, if there is none); otherwise it finishes by
  -- length exactly at the token limit; otherwise the sequence goes on in its state.
  pub append_token_reason : Stopped s t after ⊎ Exhausted s t after ⊎ Continued s t after
  unfolding append_token
  append_token_reason = elim (Option-cases (matched_stop_len gen' s.sampler.stop_sequences)) [
    | inr (m, e) ↦ inl (Stopped-by m e)
    | inl e ↦ elim (ℕ_discrete t s.sampler.eos_token) [
      | yes eos ↦ inl (Stopped-eos e eos)
      | no ne ↦ elim (dec_le s.sampler.max_new_tokens (length gen')) [
        | yes full ↦ inr (
            inl (record {
              reason = ground (arith, e, ne, full, open_end);
              ended = ground (arith, e, ne, full, open_end);
              why = no-IsStop e ne;
              limit = omega (arith, full, length-append s.generated_tokens (t ∷ []));
            }))
        | no room ↦ inr (
            inr (record {
              reason = ground (arith, e, ne, room, open_end);
              unchanged = ground (arith, e, ne, room, open_end);
              why = no-IsStop e ne;
              limit = omega (arith, room, length-append s.generated_tokens (t ∷ []));
            }))
      ]
    ]
  ]

-- A terminal reason stands: `append_token` on a sequence that has one keeps it, with its state and
-- the tokens that it trims.
reason_kept :
    (s : Sequence) (t now : ℕ) (r : FinishReason)
    → s.finish_reason ≡ some r
    → ((append_token s t now).1.finish_reason ≡ some r)
      × ((append_token s t now).1.state ≡ s.state)
      × ((append_token s t now).1.terminal_trim_tokens ≡ s.terminal_trim_tokens)
unfolding append_token
reason_kept s t now r e = (ground arith, ground arith, ground arith)
