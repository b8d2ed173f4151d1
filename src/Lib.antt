-- ===== src/Lib.antt =====
-- Hotbatch: the continuous-batching inference engine of crates/hotbatch-core, and the HTTP server of
-- crates/hotbatch-server with its naive engine.
--
-- The program. The endpoints check a request's parameters, make tokens of its prompt, and put it
-- into a bounded priority queue. One scheduler task owns the model and the key/value cache: it
-- admits requests while slots are free, prefills each prompt, and then advances all running
-- sequences together, one token for each in every decode step. Visible tokens go to each request's
-- bounded response channel without blocking; a consumer that is gone or too slow cancels its
-- sequence. The endpoint turns the tokens of its channel into text, cut at stop sequences, and
-- answers with a stream of events or with one JSON object. At shutdown every waiting and running
-- request gets an error.
--
-- The files.
--   KvCache    crates/hotbatch-core/src/kv_cache.rs: `SlabKvCache` with its slots, handles and
--              generations. Defs has the state and one function for each method (`new`, `allocate`,
--              `free`, `write`, `read`); Slots, Invariant, Handles, Storage and Owners its theory, and
--              Refinement the map from live handles to layers that its clients see.
--   Sampler    crates/hotbatch-core/src/sampler.rs: `SamplerConfig`, `Sampler::sample`, `next_f64`, and
--              `LogitRow::argmax` of model.rs.
--   Sequence   crates/hotbatch-core/src/sequence.rs: `Sequence` and its methods (Defs), and the two
--              searches for stop sequences (Stops). `generate` in Emit is the loop body of the
--              scheduler for one sequence, repeated.
--   Message, Runtime, Delivery, Metrics
--              the items of a response channel; the asynchronous runtime as an interface;
--              `try_send_tokens` and `try_send_error`; the calls made to the metrics library.
--   Queue      `RequestQueue` of crates/hotbatch-core/src/scheduler.rs: `submit`, `try_pop`,
--              `close_and_drain`.
--   Model      the batch types and `SmallTransformer::{prefill, forward}` of
--              crates/hotbatch-core/src/model.rs, with the tensor backends behind an interface.
--   Scheduler  `Scheduler` of crates/hotbatch-core/src/scheduler.rs: Defs has its state, the reaping of
--              sequences and `validate_request`; Admission the admission loop of `run`, Decode the decode
--              step, Loop the rounds and the shutdown. Live states what holds between two rounds, and
--              Reaping, Starting, Admitting, Ending, Advancing, Decoding, Running and Rounds follow a
--              round's parts, and Progress some decode steps in a row.
--   Naive      `AdmissionControl` and `run_naive_request` of crates/hotbatch-server/src/naive.rs: the engine that
--              serves one request at a time with a cache of its own, and its `submit`.
--   Scripted   `ScriptedModel` of crates/hotbatch-core/src/model.rs: the model with a fixed text.
--   Gpt2       `Gpt2Model` of crates/hotbatch-core/src/model.rs: Layers has `Conv1D` and `Gpt2Mlp`, Attention
--              `Gpt2Attention::{prefill_attention, decode_attention}`, Passes the blocks and the two passes, Load
--              `Gpt2Model::load`; Steps has the tensor library and what a pass is. Tame, Confined,
--              Inversion, Growth, Rows and Loaded are their theory.
--   Tokenizer  `normalize_model_name`, `TokenizerBundle` and `FallbackTokenizer` of
--              crates/hotbatch-core/src/model.rs.
--   Sse        crates/hotbatch-server/src/sse.rs: `TextOutputFilter` (Defs), and `openai_stream` (Stream)
--              as a function from the items of a channel to the events and whether it cancels.
--              Search and Shown are the theory of the filter.
--   Api        crates/hotbatch-server/src/api.rs: Errors has `ApiError`, Options `validate_options`, Submit
--              `submit_prompt`, Collect `collect_generation` and the answers, Handlers the endpoints.
--              Validation, Queued and Agreement are their theory.
--   Server     crates/hotbatch-server/src/lib.rs: `ServeArgs::validate` and `build_app`; Admitted follows a
--              request from the endpoints into the scheduler.
--   Tests      the theorems at concrete inputs.
--   Base       lists, association lists over ℕ, results, machine arithmetic, texts.
--
-- How the code is modelled. A method on `&mut self` is a function from the state to the state. A
-- `Result` is `Result`, with a third outcome for a panic of the code (an index out of range, a slice
-- with its bounds in the wrong order). `usize` and `u64` are ℕ with the 64-bit wrap-around or
-- saturation written out where the source asks for it (`checked_add`, `saturating_add`,
-- `wrapping_add`, the shifts of the generator). A hash map is an association list. A float is its bit
-- pattern. An error's text is a constructor with the values that the text shows. Channels,
-- cancellation tokens and request ids are numbers. Plain sums wrap as in a release build where a
-- statement depends on it (`scripted_row`); the widths `3 * n_embd` and `4 * n_embd` of a model are not
-- bounded, since no file has weights of such a size.
--
-- Parameters. Tensors (a type with the shape of each value) and the operations of the tensor library
-- (`Candle`), each of which gives a tensor or fails, and its builder of weights (`Checkpoint`), the
-- operations on floats, the backend of the model (its two passes, which touch the cache by successful
-- writes alone) and the runtime. Each call of the runtime takes and returns the state of the world, in
-- which the other tasks may have done anything between two calls; the requests they submit come in
-- before each `try_pop` and before the shutdown, one lock section at a time. The laws of the runtime
-- say only that sending adds to a channel and that nothing else of the scheduler's calls does.
--
-- Bounds and fuel. The admission loop takes fuel, since other tasks may submit requests for ever. If
-- they have only so many left (`Finite`), those and the waiting requests are enough. The number of
-- rounds of `run` is a bound of the model: the code runs until it is told to stop. The loop of the
-- naive engine takes fuel too, and more than the request's token limit is enough.
--
-- Texts. A string is the list of its characters' code points. What the code asks of Rust's library
-- about them (white space, UTF-8) is a parameter, and so is the tokenizer library. JSON is data: a
-- response has the values that its JSON shows, and a handler takes the parsed body or the status of its
-- rejection. The items that an endpoint will receive from its channel are an argument of the handler.
--
-- Not modelled. What the tensor operations compute, reading and parsing the files of GPT-2, downloads,
-- the routes, listener and signals of the server, the benchmark client (crates/hotbatch-bench), the
-- registration and rendering of metrics, the sleeps of the scripted model, and the measured duration
-- of a step, which the code does not use.
pub mod Base
pub mod KvCache
pub mod Sampler
pub mod Sequence
pub mod Message
pub mod Runtime
pub mod Delivery
pub mod Metrics
pub mod Queue
pub mod Model
pub mod Scheduler
pub mod Naive
pub mod Tokenizer
pub mod Sse
pub mod Api
pub mod Server
pub mod Scripted
pub mod Gpt2
mod Tests
