-- ===== src/Api/Validation.antt =====
-- The parameters that `validate_options` accepts.
use hotbatch.Base.{
  ℕ, Bool, ◌==◌, ◌≤◌, ◌<◌, ◌≡◌, refl, ap, ◌⊎◌, inl, inr, true, false, Option, none, some, List, [],
  ◌∷◌, arith, min, is_empty, length, Bool-cases, All, Result, ok, err, panic, Text, Unicode,
  is_blank,
}
use hotbatch.Sampler.{Floats}
use hotbatch.Tokenizer.{ModelName, gpt2, tiny_gpt2, scripted, normalize_model_name}
use hotbatch.Api.Errors
use hotbatch.Api.Errors.{ApiError, rejected, invalid, model_not_found}
use hotbatch.Api.Options.{
  StopField, into_vec, Choices, SubmitParams, Limits, default_max_tokens, or_else, same_model,
  any_blank, one_f32, two_f32, model_ok, stops_of, with_stops, validate_options,
}

-- The stop sequences, none if the field is left out.
abbrev pub stop_list : Option StopField → List Text
stop_list none = []
stop_list (some field) = into_vec field

-- The parameters with their defaults.
abbrev pub chosen : Limits → Choices → SubmitParams
chosen limits c = record {
  max_tokens = or_else c.max_tokens (min default_max_tokens limits.max_new_tokens);
  temperature = or_else c.temperature 0;
  top_p = or_else c.top_p one_f32;
  top_k = c.top_k;
  stops = stop_list c.stop;
  seed = or_else c.seed 0;
  priority = or_else c.priority 5;
}

same_model_lem :
    (o : Option ModelName) (m : ModelName)
    → (same_model o m ≡ true) × (o ≡ some m) ⊎ (same_model o m ≡ false) × (¬ (o ≡ some m))
same_model_lem none m = inr (refl, λ e. absurd (ground arith))
same_model_lem (some gpt2) gpt2 = inl (refl, refl)
same_model_lem (some gpt2) tiny_gpt2 = inr (refl, λ e. absurd (ground arith))
same_model_lem (some gpt2) scripted = inr (refl, λ e. absurd (ground arith))
same_model_lem (some tiny_gpt2) gpt2 = inr (refl, λ e. absurd (ground arith))
same_model_lem (some tiny_gpt2) tiny_gpt2 = inl (refl, refl)
same_model_lem (some tiny_gpt2) scripted = inr (refl, λ e. absurd (ground arith))
same_model_lem (some scripted) gpt2 = inr (refl, λ e. absurd (ground arith))
same_model_lem (some scripted) tiny_gpt2 = inr (refl, λ e. absurd (ground arith))
same_model_lem (some scripted) scripted = inl (refl, refl)

module _ (U : Unicode) (F : Floats) where
  -- What the endpoints ask of the parameters: the served model or none, a number of tokens that is
  -- positive and within the server's limit, finite floats in their ranges, a `top_k` that is not 0, and
  -- stop sequences that are not blank: at most four, and at least one if the field is there.
  pub record IsAcceptable (limits : Limits) (c : Choices) : Type 0 where
    pub served :
        (name : Text) → c.model ≡ some name → normalize_model_name name ≡ some limits.model_name
    pub asked : 0 < (chosen limits c).max_tokens
    pub limited : (chosen limits c).max_tokens ≤ limits.max_new_tokens
    pub finite_temperature : F.is_finite32 (chosen limits c).temperature ≡ true
    pub warm : F.le32 0 (chosen limits c).temperature ≡ true
    pub cool : F.le32 (chosen limits c).temperature two_f32 ≡ true
    pub finite_top_p : F.is_finite32 (chosen limits c).top_p ≡ true
    pub positive_top_p : F.lt32 0 (chosen limits c).top_p ≡ true
    pub small_top_p : F.le32 (chosen limits c).top_p one_f32 ≡ true
    pub some_candidate : ¬ (c.top_k ≡ some 0)
    pub some_stop : (field : StopField) → c.stop ≡ some field → ¬ (into_vec field ≡ [])
    pub few_stops : length (stop_list c.stop) ≤ 4
    pub shown_stops : All (λ stop. is_blank U.is_whitespace stop ≡ false) (stop_list c.stop)

  any_blank-All :
      (ts : List Text)
      → any_blank U ts ≡ false
      → All (λ stop. is_blank U.is_whitespace stop ≡ false) ts
  any_blank-All [] e = tt
  any_blank-All (t ∷ ts) e = (ground arith, any_blank-All ts (ground arith))

  All-any_blank :
      (ts : List Text)
      → All (λ stop. is_blank U.is_whitespace stop ≡ false) ts
      → any_blank U ts ≡ false
  All-any_blank [] a = refl
  All-any_blank (t ∷ ts) a = ground (arith, a.0, All-any_blank ts a.1)

  model_ok_lem :
      (limits : Limits) (c : Choices)
      → model_ok U F limits c.model ≡ true
      → (name : Text) → c.model ≡ some name
      → normalize_model_name name ≡ some limits.model_name
  unfolding model_ok
  model_ok_lem limits c e name n =
      ground (arith, same_model_lem (normalize_model_name name) limits.model_name)

  accepted-IsAcceptable :
      (limits : Limits) (c : Choices) (p : SubmitParams)
      → validate_options U F limits c ≡ ok p
      → IsAcceptable limits c
  unfolding validate_options stops_of with_stops
  accepted-IsAcceptable limits c p e = record {
    served = model_ok_lem limits c (ground arith);
    asked = ground arith;
    limited = ground arith;
    finite_temperature = ground arith;
    warm = ground arith;
    cool = ground arith;
    finite_top_p = ground arith;
    positive_top_p = ground arith;
    small_top_p = ground arith;
    some_candidate = λ z. absurd (ground arith);
    some_stop = λ field given nil. absurd (ground arith);
    few_stops = ground arith;
    shown_stops = any_blank-All (stop_list c.stop) (ground arith);
  }

  model_ok_holds :
      (limits : Limits) (requested : Option Text)
      → ((name : Text) → requested ≡ some name → normalize_model_name name ≡ some limits.model_name)
      → model_ok U F limits requested ≡ true
  unfolding model_ok
  model_ok_holds limits none served = refl
  model_ok_holds limits (some name) served =
      ground (arith, served name refl, same_model_lem (normalize_model_name name) limits.model_name)

  stops_of_holds :
      (field : Option StopField)
      → ((f : StopField) → field ≡ some f → ¬ (into_vec f ≡ []))
      → stops_of U F field ≡ ok (stop_list field)
  unfolding stops_of
  stops_of_holds none given = refl
  stops_of_holds (some f) given = ground (arith, given f refl)

  some_candidate_lem : (k : Option ℕ) → ¬ (k ≡ some 0) → ¬ (or_else k 1 ≡ 0)
  some_candidate_lem none h e = ground arith
  some_candidate_lem (some k) h e = h (ap some e)

  acceptable-accepted :
      (limits : Limits) (c : Choices)
      → IsAcceptable limits c
      → validate_options U F limits c ≡ ok (chosen limits c)
  unfolding validate_options with_stops
  acceptable-accepted limits c a = ground (
    arith,
    model_ok_holds limits c.model a.served,
    a.asked,
    a.limited,
    a.finite_temperature,
    a.warm,
    a.cool,
    a.finite_top_p,
    a.positive_top_p,
    a.small_top_p,
    some_candidate_lem c.top_k a.some_candidate,
    stops_of_holds c.stop a.some_stop,
    a.few_stops,
    All-any_blank (stop_list c.stop) a.shown_stops,
  )

  -- The request names no model, or one whose name stands for the served one.
  abbrev pub IsServed : Limits → Choices → Type 0
  IsServed limits c =
      (name : Text) → c.model ≡ some name → normalize_model_name name ≡ some limits.model_name

  -- A client error: 404 for a model that is not served, and 400 for any other parameter.
  abbrev pub IsRefused : Limits → Choices → Result ApiError SubmitParams → Type 0
  IsRefused limits c r =
      (e : ApiError) × (r ≡ err e)
      × (((e.status ≡ 404) × (¬ IsServed limits c)) ⊎ ((e.status ≡ 400) × IsServed limits c))

  abbrev bad_request : Result ApiError SubmitParams → Bool
  bad_request (ok p) = true
  bad_request (err e) = e.status == 400
  bad_request panic = false

  stops_of_lem :
      (field : Option StopField)
      → ((stops : List Text) × (stops_of U F field ≡ ok stops))
        ⊎ ((e : ApiError) × (stops_of U F field ≡ err e) × (e.status ≡ 400))
  unfolding stops_of invalid
  stops_of_lem none = inl ([], refl)
  stops_of_lem (some f) = elim (Bool-cases (is_empty (into_vec f))) [
    | inl e ↦ inr (
      invalid Errors.stop (rejected Errors.invalid_stop) Errors.invalid_stop,
      rw (e, stops_of) refl,
      refl,
    )
    | inr u ↦ inl (into_vec f, rw (u, stops_of) refl)
  ]

  bad_request_lem :
      (limits : Limits) (c : Choices)
      → model_ok U F limits c.model ≡ true
      → bad_request (validate_options U F limits c) ≡ true
  unfolding validate_options with_stops invalid
  bad_request_lem limits c served = elim (stops_of_lem c.stop) [
    | inl (stops, given) ↦ ground (arith, served, given)
    | inr (e, refused, status) ↦ ground (arith, served, refused, status)
  ]

  settled :
      (limits : Limits) (c : Choices) (r : Result ApiError SubmitParams)
      → IsServed limits c
      → bad_request r ≡ true
      → ((p : SubmitParams) × (r ≡ ok p)) ⊎ IsRefused limits c r
  settled limits c (ok p) served h = inl (p, refl)
  settled limits c (err e) served h = inr (e, refl, inr (ground arith, served))
  settled limits c panic served h = absurd (ground arith)

  unserved :
      (limits : Limits) (c : Choices)
      → model_ok U F limits c.model ≡ false
      → IsRefused limits c (validate_options U F limits c)
  unfolding validate_options model_not_found
  unserved limits c other = (
    model_not_found (or_else c.model []),
    rw (other, validate_options) refl,
    inl (refl, λ served. absurd (ground (arith, other, model_ok_holds limits c.model served))),
  )

  -- `validate_options` accepts exactly the acceptable parameters, and fills in the defaults: no more
  -- than 16 tokens, temperature 0, all of the distribution, no stop sequence, seed 0 and priority 5.
  -- Any others get a client error: with status 404 if the request names a model that is not served,
  -- whatever else is wrong with it, and with status 400 otherwise.
  pub validate_options_lem :
      (limits : Limits) (c : Choices)
      → (validate_options U F limits c ≡ ok (chosen limits c)) × IsAcceptable limits c
        ⊎ IsRefused limits c (validate_options U F limits c) × (¬ IsAcceptable limits c)
  validate_options_lem limits c = elim (Bool-cases (model_ok U F limits c.model)) [
    | inl served ↦
        elim (settled limits c (validate_options U F limits c) (model_ok_lem limits c served)
          (bad_request_lem limits c served)) [
            | inl (p, passes) ↦
                let a = accepted-IsAcceptable limits c p passes in
                inl (acceptable-accepted limits c a, a)
            | inr (e, fails, status) ↦
                inr
                  ((e, fails, status), λ a. absurd (ground (arith, acceptable-accepted limits c a)))
          ]
    | inr other ↦
        let (e, fails, status) = unserved limits c other in
        inr ((e, fails, status), λ a. absurd (ground (arith, acceptable-accepted limits c a)))
  ]

  -- What the parameters that pass ask for is positive and within the limit.
  pub options_within :
      (limits : Limits) (c : Choices) (p : SubmitParams)
      → validate_options U F limits c ≡ ok p
      → (0 < p.max_tokens) × (p.max_tokens ≤ limits.max_new_tokens)
  options_within limits c p e =
      let a = accepted-IsAcceptable limits c p e in
      ground (arith, e, a.asked, a.limited, acceptable-accepted limits c a)
