-- ===== src/Server/Arguments.antt =====
-- The arguments that `ServeArgs::validate` accepts.
use hotbatch.Base.{
  Bool, ◌≤◌, ◌<◌, ◌≡◌, refl, ◌⊎◌, inl, inr, true, Option, none, some, arith, Option-cases, list_eq,
  Text, chars,
}
use hotbatch.Tokenizer.{ModelName, gpt2, tiny_gpt2, scripted, normalize_model_name}
use hotbatch.Server.Defs.{ServeArgs, ServeError, validate}

-- A server has room for a sequence and a waiting request, and a sequence for a prompt before the new
-- tokens, within GPT-2's context; the model is one of GPT-2's, the device the CPU, and the host an
-- address.
pub record IsServable (is_ip : Text → Bool) (args : ServeArgs) : Type 0 where
  pub some_sequence : 0 < args.max_running_seqs
  pub some_waiting : 0 < args.max_queue_depth
  pub some_token : 0 < args.max_new_tokens
  pub prompted : args.max_new_tokens < args.max_seq_len
  pub context : args.max_seq_len ≤ 1024
  pub gpt2_model :
      (normalize_model_name args.model ≡ some gpt2)
      ⊎ (normalize_model_name args.model ≡ some tiny_gpt2)
  pub on_cpu : list_eq args.device (chars "cpu") ≡ true
  pub address : is_ip args.host ≡ true

Name-cases :
    (o : Option ModelName)
    → (o ≡ none) ⊎ (o ≡ some gpt2) ⊎ (o ≡ some tiny_gpt2) ⊎ (o ≡ some scripted)
Name-cases none = inl refl
Name-cases (some gpt2) = inr (inl refl)
Name-cases (some tiny_gpt2) = inr (inr (inl refl))
Name-cases (some scripted) = inr (inr (inr refl))

accepted-IsServable :
    (is_ip : Text → Bool) (args : ServeArgs) → validate is_ip args ≡ none → IsServable is_ip args
unfolding validate
accepted-IsServable is_ip args e =
    let names = Name-cases (normalize_model_name args.model) in
    record {
      some_sequence = ground arith;
      some_waiting = ground arith;
      some_token = ground arith;
      prompted = ground arith;
      context = ground arith;
      gpt2_model = ground (arith, names);
      on_cpu = ground (arith, names);
      address = ground (arith, names);
    }

servable-accepted :
    (is_ip : Text → Bool) (args : ServeArgs) → IsServable is_ip args → validate is_ip args ≡ none
unfolding validate
servable-accepted is_ip args s = ground (
  arith, s.some_sequence, s.some_waiting, s.some_token, s.prompted, s.context, s.gpt2_model,
  s.on_cpu, s.address,
)

-- `validate` accepts exactly the arguments of a servable set-up: every other set gets an error before
-- a model is loaded.
pub validate_lem :
    (is_ip : Text → Bool) (args : ServeArgs)
    → (validate is_ip args ≡ none) × IsServable is_ip args
      ⊎ ((e : ServeError) × (validate is_ip args ≡ some e) × (¬ IsServable is_ip args))
validate_lem is_ip args = elim (Option-cases (validate is_ip args)) [
  | inl fine ↦ inl (fine, accepted-IsServable is_ip args fine)
  | inr (e, bad) ↦ inr (e, bad, λ s. ground (arith, bad, servable-accepted is_ip args s))
]
