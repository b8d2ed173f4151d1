-- ===== src/Tests/Endpoints.antt =====
-- A server for 16 tokens and a request of two tokens for three.
use hotbatch.Base.{
  ◌≡◌, refl, ◌⊎◌, Bool, true, false, none, some, List, [], ◌∷◌, ◌++◌, ok, Text, chars,
}
use hotbatch.KvCache
use hotbatch.Sequence.{GenerationRequest, stop_reached}
use hotbatch.Message.{StreamItem, token, done}
use hotbatch.Queue
use hotbatch.Queue.{Shared}
use hotbatch.Tokenizer.{gpt2, encode}
use hotbatch.Scheduler
use hotbatch.Scheduler.{Scheduler, validate_request}
use hotbatch.Sse.{completion, openai_stream}
use hotbatch.Api.{
  SubmitParams, Choices, Limits, StopField, validate_options, AppState, Host, GenerationHandle,
  continuous, submit_prompt, collect_generation,
}
use hotbatch.Api.Validation.{chosen, IsAcceptable, IsRefused, validate_options_lem}
use hotbatch.Api.Agreement.{Agrees, stream-collect}
use hotbatch.Server.{ServeArgs, ServeError, ServeMode, Loaded, Built, validate, build_app}
use hotbatch.Server.Arguments.{IsServable, validate_lem}
use hotbatch.Server.Admitted.{accepted_request_runs}
use hotbatch.Tests.Texts.{unicode, tokenizer}
use hotbatch.Tests.Instances.{Room, floats, runtime, engine}

abbrev args : ServeArgs
args = record {
  host = chars "::1";
  port = 8080;
  mode = ServeMode.continuous_mode;
  model = chars "gpt2";
  device = chars "cpu";
  max_running_seqs = 2;
  max_queue_depth = 4;
  max_seq_len = 16;
  max_new_tokens = 4;
}

abbrev is_ip : Text → Bool
is_ip host = true

validate_lem_example :
    (validate is_ip args ≡ none) × IsServable is_ip args
    ⊎ ((e : ServeError) × (validate is_ip args ≡ some e) × (¬ IsServable is_ip args))
validate_lem_example = validate_lem is_ip args

abbrev loaded : Loaded
loaded = record { tokenizer = tokenizer; num_layers = 2; n_heads = 4; head_dim = 3 }

abbrev room : Room
room = record { log = []; coming = [] }

abbrev shared : Shared runtime
shared = record {
  queue = record { requests = []; max_depth = 4; closed = false };
  metrics = [];
  world = room;
}

abbrev limits : Limits
limits = record { model_name = gpt2; max_new_tokens = 4; max_seq_len = 16 }

abbrev app : AppState runtime
app = record { engine = continuous; tokenizer = tokenizer; limits = limits; shared = shared }

abbrev scheduler : Scheduler engine
scheduler = record {
  config = record {
    max_running_seqs = 2;
    max_new_tokens = 4;
    max_seq_len = 16;
    max_queue_depth = 4;
  };
  shared = shared;
  running = [];
  kv_cache = record {
    max_seqs = 2;
    max_seq_len = 16;
    num_layers = 2;
    n_heads = 4;
    head_dim = 3;
    free_slots = 0 ∷ 1 ∷ [];
    allocated = [];
    next_generations = 0 ∷ 0 ∷ [];
    layers = [];
  };
}

abbrev built : Built engine
built = record { app = app; scheduler = some scheduler }

built_here : build_app engine is_ip args (some loaded) 3 room ≡ ok built
unfolding build_app Scheduler.new KvCache.new Queue.new
built_here = refl

abbrev choices : Choices
choices = record {
  model = some (chars "gpt2");
  max_tokens = some 3;
  temperature = none;
  top_p = none;
  top_k = none;
  stop = some (StopField.one (9 ∷ 10 ∷ []));
  seed = none;
  priority = none;
}

abbrev params : SubmitParams
params = record {
  max_tokens = 3;
  temperature = 0;
  top_p = 0x3f80_0000;
  top_k = none;
  stops = (9 ∷ 10 ∷ []) ∷ [];
  seed = 0;
  priority = 5;
}

validated : validate_options unicode floats limits choices ≡ ok params
unfolding validate_options
validated = refl

validate_options_lem_example :
    (validate_options unicode floats limits choices ≡ ok (chosen limits choices))
      × IsAcceptable unicode floats limits choices
    ⊎ IsRefused unicode floats limits choices (validate_options unicode floats limits choices)
      × (¬ IsAcceptable unicode floats limits choices)
validate_options_lem_example = validate_options_lem unicode floats limits choices

abbrev host : Host runtime
host = record {
  alive = λ w. (true, w);
  fresh = λ n w. ((1, 4, 3), w);
  closed_since = λ w. (false, w);
}

abbrev handle : GenerationHandle
handle = record { id = 1; receiver = 4; response_done = 3 }

submitted :
    (submit_prompt unicode runtime host (5 ∷ 6 ∷ []) params app).0
    ≡ ok (handle, 2, (9 ∷ 10 ∷ []) ∷ [])
unfolding submit_prompt encode Queue.submit Queue.pruned
submitted = refl

accepted_request_runs_example :
    (before : List GenerationRequest) × (req : GenerationRequest) × ((submit_prompt unicode runtime
        host
        (5 ∷ 6 ∷ [])
        params
        app).1.shared.queue.requests
      ≡ before ++ (req ∷ []))
    × (4 ≡ req.sender)
    × (validate_request engine scheduler req ≡ none)
accepted_request_runs_example =
    accepted_request_runs engine is_ip args unicode floats host (some loaded) 3 room built choices
      (5 ∷ 6 ∷ []) params app scheduler scheduler (handle, 2, (9 ∷ 10 ∷ []) ∷ []) refl built_here
      refl validated refl refl refl refl submitted

-- The stop sequence comes in the middle.
abbrev items : List StreamItem
items = token 5 ∷ (token 9 ∷ (token 10 ∷ (token 6 ∷ (done stop_reached ∷ []))))

stream-collect_example :
    Agrees []
      (openai_stream unicode tokenizer completion 1 gpt2 ((9 ∷ 10 ∷ []) ∷ []) items)
      (collect_generation unicode tokenizer ((9 ∷ 10 ∷ []) ∷ []) items)
stream-collect_example =
    stream-collect unicode tokenizer completion 1 gpt2 ((9 ∷ 10 ∷ []) ∷ []) items
