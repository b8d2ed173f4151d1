-- ===== src/Server/Defs.antt =====
-- `ServeArgs::validate` and `build_app`. The routes, the listener and the signals are the HTTP
-- library's and the runtime's. Loading a model is a parameter, which returns the tokenizer and the
-- shape of the cache; the loaded backend is the engine's.
use hotbatch.Base.{
  ℕ, ◌==◌, Bool, not, Option, none, some, [], ltb, leb, if◌then◌else◌, list_eq, Result, ok, err,
  Text, chars,
}
use hotbatch.KvCache
use hotbatch.Queue
use hotbatch.Queue.{Shared}
use hotbatch.Tokenizer.{gpt2, tiny_gpt2, scripted, TokenizerBundle, normalize_model_name}
use hotbatch.Scheduler
use hotbatch.Scheduler.{Engine, Scheduler}
use hotbatch.Api.{AppState, continuous, naive}

pub data ServeMode : Type 0 where
  naive_mode continuous_mode : ServeMode

pub record ServeArgs : Type 0 where
  pub host : Text
  pub port : ℕ
  pub mode : ServeMode
  pub model : Text
  pub device : Text
  pub max_running_seqs : ℕ
  pub max_queue_depth : ℕ
  pub max_seq_len : ℕ
  pub max_new_tokens : ℕ

pub data ServeError : Type 0 where
  no_running_seqs no_queue_depth no_seq_len no_new_tokens : ServeError
  new_tokens_not_less over_gpt2_context scripted_not_served : ServeError
  unsupported_model unsupported_device invalid_host : Text → ServeError
  over_model_context : ℕ → ServeError
  load_failed : ServeError

-- `none` is `Ok(())`. The argument is whether a text is an IP address.
unfoldable pub validate : (Text → Bool) → ServeArgs → Option ServeError
unfolding normalize_model_name
validate is_ip args =
    if args.max_running_seqs == 0
    then some no_running_seqs
    else if args.max_queue_depth == 0
    then some no_queue_depth
    else if args.max_seq_len == 0
    then some no_seq_len
    else if args.max_new_tokens == 0
    then some no_new_tokens
    else if leb args.max_seq_len args.max_new_tokens
    then some new_tokens_not_less
    else if ltb 1024 args.max_seq_len
    then some over_gpt2_context
    else elim (normalize_model_name args.model) [
      | none ↦ some (unsupported_model args.model)
      | some scripted ↦ some scripted_not_served
      | some gpt2 ↦ checked_host
      | some tiny_gpt2 ↦ checked_host
    ]
  where
    checked_host : Option ServeError
    checked_host =
        if not (list_eq args.device (chars "cpu"))
        then some (unsupported_device args.device)
        else if not (is_ip args.host)
        then some (invalid_host args.host)
        else none

-- What loading a model gives: its tokenizer, and layers, heads and the heads' dimension.
pub record Loaded : Type 0 where
  pub tokenizer : TokenizerBundle
  pub num_layers : ℕ
  pub n_heads : ℕ
  pub head_dim : ℕ

module _ (E : Engine) where
  open E use {tensors, runtime, backend}

  -- The state of the endpoints, and the scheduler that is spawned, if one is.
  pub record Built : Type 0 where
    pub app : AppState runtime
    pub scheduler : Option (Scheduler E)

  -- The shutdown token is given, and `none` is a model that could not be loaded.
  unfoldable pub build_app :
      (Text → Bool) → ServeArgs → Option Loaded → ℕ → runtime.World → Result ServeError Built
  unfolding validate
  build_app is_ip args loaded token w = elim (validate is_ip args) [
    | some e ↦ err e
    | none ↦ elim loaded [
      | none ↦ err load_failed
      | some model ↦
          let shared : Shared runtime = record {
            queue = Queue.new args.max_queue_depth;
            metrics = [];
            world = w;
          } in
          let app : AppState runtime = record {
            engine = elim args.mode [
              | continuous_mode ↦ continuous
              | naive_mode ↦ naive token 0 args.max_queue_depth
            ];
            tokenizer = model.tokenizer;
            limits = record {
              model_name = model.tokenizer.model_name;
              max_new_tokens = args.max_new_tokens;
              max_seq_len = args.max_seq_len;
            };
            shared = shared;
          } in
          let scheduler =
            Scheduler.new E
              (record {
                max_running_seqs = args.max_running_seqs;
                max_new_tokens = args.max_new_tokens;
                max_seq_len = args.max_seq_len;
                max_queue_depth = args.max_queue_depth;
              })
              shared
              (KvCache.new args.max_running_seqs args.max_seq_len model.num_layers model.n_heads
                model.head_dim) in
          if ltb backend.max_positions args.max_seq_len
          then err (over_model_context backend.max_positions)
          else ok (record {
            app = app;
            scheduler = elim args.mode [ continuous_mode ↦ some scheduler | naive_mode ↦ none ];
          })
    ]
  ]
