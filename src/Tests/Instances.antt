-- ===== src/Tests/Instances.antt =====
-- The parameters at concrete values: tensors that are their shapes, floats compared as numbers, a
-- runtime that logs what is sent, and a model of three tokens.
use hotbatch.Base.{
  ℕ, ◌+◌, ◌*◌, refl, sym, true, false, some, List, [], ◌∷◌, ◌++◌, map, max, min, leb, ltb, ◌==◌,
  if◌then◌else◌, length,
}
use mathlib.Core.Option.{some-injective}
use hotbatch.KvCache.{Tensors}
use hotbatch.Sampler.{SamplerConfig, Floats}
use hotbatch.Sequence.{GenerationRequest}
use hotbatch.Message.{StreamItem}
use hotbatch.Runtime.{Runtime}
use hotbatch.Model.{passed, Backend, here}
use hotbatch.Scheduler.{Engine}

abbrev pub tensors : Tensors
tensors = record {
  Tensor = List ℕ;
  dims = λ t. t;
  zeros = λ s. some s;
  dims-zeros = λ s t e. sym (some-injective s t e);
}

abbrev pub floats : Floats
floats = record {
  is_finite32 = λ x. ltb x 0x7f80_0000;
  le32 = leb;
  lt32 = ltb;
  total_le32 = leb;
  max32 = max;
  clamp32 = λ x lo hi. max lo (min x hi);
  sub32 = λ a b. a;
  div32 = λ a b. a;
  widen = λ x. x;
  le64 = leb;
  lt64 = ltb;
  total_le64 = leb;
  exp64 = λ x. x;
  add64 = ◌+◌;
  sub64 = λ a b. a;
  mul64 = ◌*◌;
  div64 = λ a b. a;
  sum64 = λ xs. length xs;
  of_u64 = λ x. x;
}

-- What was sent, the latest first, and the requests that other tasks are about to submit.
pub record Room : Type 0 where
  pub log : List (ℕ × StreamItem)
  pub coming : List GenerationRequest

abbrev pub sent_to : List (ℕ × StreamItem) → ℕ → List StreamItem
sent_to [] c = []
sent_to (x ∷ xs) c = if x.0 == c then sent_to xs c ++ (x.1 ∷ []) else sent_to xs c

-- Channel and token 9 are closed and cancelled.
abbrev pub runtime : Runtime
runtime = record {
  World = Room;
  is_closed = λ c w. (c == 9, w);
  is_cancelled = λ c w. (c == 9, w);
  now = λ w. (length w.log, w);
  idle = λ w. (false, w);
  try_reserve_many = λ c n w. (true, w);
  send = λ c x w. record w { log = (c, x) ∷ w.log };
  try_send = λ c x w. (true, record w { log = (c, x) ∷ w.log });
  arrivals = λ w. (w.coming, record w { coming = [] });
  sent = λ w c. sent_to w.log c;
  sent-is_closed = λ c w. refl;
  sent-is_cancelled = λ c w. refl;
  sent-idle = λ w. refl;
  sent-now = λ w. refl;
  sent-arrivals = λ w. refl;
  sent-try_reserve_many = λ c n w. refl;
  sent-send = λ c d x w. refl;
  sent-try_send = λ c d x w. refl;
}

-- A model of three tokens that prefers token 1.
abbrev pub backend : Backend tensors
backend = record {
  max_positions = 16;
  prefill_pass = λ prompt h c. (passed tt, c);
  forward_pass = λ batch c. (passed (map (λ input. 1 ∷ 2 ∷ 0 ∷ []) batch), c);
  prefill_writes = λ prompt h c. here;
  forward_writes = λ batch c. here;
}

abbrev pub engine : Engine
engine = record { tensors = tensors; floats = floats; runtime = runtime; backend = backend }

abbrev pub settings : SamplerConfig
settings = record {
  temperature = 0;
  top_p = 0x3f80_0000;
  top_k = some 2;
  stop_sequences = (1 ∷ 2 ∷ []) ∷ (2 ∷ []) ∷ [];
  max_new_tokens = 3;
  eos_token = 7;
  seed = 5;
}

-- A request of two prompt tokens for three tokens, on channel 4, with a priority.
abbrev pub request_at : ℕ → ℕ → GenerationRequest
request_at id priority = record {
  id = id;
  prompt_tokens = 5 ∷ 6 ∷ [];
  sampler_config = settings;
  sender = 4;
  priority = priority;
  created_at = 0;
  prompt_hash = 0;
  response_done = 3;
}
