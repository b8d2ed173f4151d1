-- ===== src/Server/Admitted.antt =====
-- A request that the endpoints accept is one that the scheduler accepts.
use hotbatch.Base.{
  ℕ, ◌≤◌, ◌+◌, ◌≡◌, inl, inr, ap, ◌∙◌, Bool, Option, none, some, List, [], ◌∷◌, ◌++◌, arith,
  Option-cases, ok, Text, Unicode,
}
use hotbatch.Sampler.{Floats}
use hotbatch.Sequence.{GenerationRequest, prompt_len, max_new_tokens}
use hotbatch.KvCache
use hotbatch.Scheduler
use hotbatch.Scheduler.{Engine, Scheduler, validate_request}
use hotbatch.Scheduler.Starting.{valid-validate}
use hotbatch.Api.{
  SubmitParams, Choices, validate_options, AppState, Host, GenerationHandle, continuous,
  submit_prompt,
}
use hotbatch.Api.Validation.{options_within}
use hotbatch.Api.Queued.{submit_prompt-IsSubmitted}
use hotbatch.Server.Arguments.{validate_lem}
use hotbatch.Server.Defs.{ServeArgs, continuous_mode, Loaded, Built, build_app}

module _ (E : Engine) (is_ip : Text → Bool) (args : ServeArgs) where
  open E use {runtime, backend}

  -- What `build_app` promises of the limits of the endpoints and of the scheduler.
  pub record IsBuilt (built : Built E) : Type 0 where
    pub new_tokens : built.app.limits.max_new_tokens ≡ args.max_new_tokens
    pub seq_len : built.app.limits.max_seq_len ≡ args.max_seq_len
    pub context : args.max_seq_len ≤ 1024
    pub positions : args.max_seq_len ≤ backend.max_positions
    pub continuous_engine : args.mode ≡ continuous_mode → built.app.engine ≡ continuous
    pub scheduler_new_tokens :
        (s : Scheduler E) → built.scheduler ≡ some s → s.config.max_new_tokens ≡ args.max_new_tokens
    pub scheduler_seq_len :
        (s : Scheduler E) → built.scheduler ≡ some s → s.config.max_seq_len ≡ args.max_seq_len
    pub cache_seq_len :
        (s : Scheduler E) → built.scheduler ≡ some s → s.kv_cache.max_seq_len ≡ args.max_seq_len

  build_app-IsBuilt :
      (loaded : Option Loaded) (token : ℕ) (w : runtime.World) (built : Built E)
      → build_app E is_ip args loaded token w ≡ ok built
      → IsBuilt built
  unfolding build_app Scheduler.new KvCache.new
  build_app-IsBuilt loaded token w built e = elim (validate_lem is_ip args) [
    | inr (x, refused, _) ↦ absurd (ground (arith, e, refused))
    | inl (fine, servable) ↦ elim (Option-cases loaded) [
      | inl lost ↦ absurd (ground (arith, e, fine, lost))
      | inr (model, read) ↦ record {
        new_tokens = ground (arith, e, fine, read);
        seq_len = ground (arith, e, fine, read);
        context = servable.context;
        positions = ground (arith, e, fine, read);
        continuous_engine = λ m. ground (arith, e, fine, read, m);
        scheduler_new_tokens = λ s h. ground (arith, e, fine, read, h);
        scheduler_seq_len = λ s h. ground (arith, e, fine, read, h);
        cache_seq_len = λ s h. ground (arith, e, fine, read, h);
      }
    ]
  ]

  module _ (U : Unicode) (F : Floats) (H : Host runtime) where
    -- Of a server that `build_app` has set up in continuous mode, from any other arguments, with `first`
    -- the scheduler that it spawned: if the endpoints, which still have the engine and the limits of the
    -- set-up, take the parameters of a request and accept its prompt, in any state of the queue, then
    -- the request is the last in the queue, its channel is the one that the endpoint listens to, and
    -- the scheduler will not refuse it: `validate_request` answers `Ok(())` in every state in which the
    -- scheduler has the configuration of `first`, and its cache the maximal sequence length of that of
    -- `first`.
    pub accepted_request_runs :
        (loaded : Option Loaded) (token : ℕ) (w : runtime.World) (built : Built E) (c : Choices)
        (prompt : Text) (params : SubmitParams) (app : AppState runtime) (first s : Scheduler E)
        (x : GenerationHandle × ℕ × List Text)
        → args.mode ≡ continuous_mode
        → build_app E is_ip args loaded token w ≡ ok built
        → built.scheduler ≡ some first
        → validate_options U F built.app.limits c ≡ ok params
        → app.engine ≡ built.app.engine
        → app.limits ≡ built.app.limits
        → s.config ≡ first.config
        → s.kv_cache.max_seq_len ≡ first.kv_cache.max_seq_len
        → (submit_prompt U runtime H prompt params app).0 ≡ ok x
        → (before : List GenerationRequest) × (req : GenerationRequest) × ((submit_prompt U runtime
              H prompt params app).1.shared.queue.requests
            ≡ before ++ (req ∷ []))
          × (x.0.receiver ≡ req.sender)
          × (validate_request E s req ≡ none)
    accepted_request_runs loaded token w built c prompt params app first s x mode e spawned valid
          engine limits config kv_len done =
        let b = build_app-IsBuilt loaded token w built e in
        let q =
          submit_prompt-IsSubmitted U runtime H prompt params app x
            (engine ∙ b.continuous_engine mode) done in
        let a = options_within U F built.app.limits c params valid in
        let fits : prompt_len q.request + max_new_tokens q.request ≤ args.max_seq_len =
          omega (arith, q.fits, q.asked, ap (λ l. l.max_seq_len) limits, b.seq_len, b.context) in
        (
          _,
          q.request,
          q.queued,
          ground (arith, done, q.answered, q.delivers),
          valid-validate E s q.request (record {
            prompted = q.prompted;
            asked = omega (arith, q.asked, a.0);
            representable = omega (arith, fits, b.context);
            limited = omega (
              arith,
              q.asked,
              a.1,
              b.new_tokens,
              ap (λ l. l.max_new_tokens) config,
              b.scheduler_new_tokens first spawned,
            );
            seq_len =
                omega
                  (arith, fits, ap (λ l. l.max_seq_len) config, b.scheduler_seq_len first spawned);
            kv_len = omega (arith, fits, kv_len, b.cache_seq_len first spawned);
            model_len = omega (arith, fits, b.positions);
          }),
        )
