-- ===== src/Metrics.antt =====
-- `SchedulerMetrics` of crates/hotbatch-core/src/scheduler.rs. The counters, gauges and histograms
-- are the metrics library's: the model keeps the calls made to them, the latest first.
use hotbatch.Base.{ℕ, Option, none, some, List, ◌∷◌, ltb, if◌then◌else◌}

pub data Counter : Type 0 where
  tokens_generated scheduler_steps shared_decode_steps cancelled_sequences : Counter

pub data Gauge : Type 0 where
  batch_size running_sequences queue_depth : Gauge

pub data Histogram : Type 0 where
  first_token_latency inter_token_latency : Histogram

-- `divide a b` sets `batch_utilization` to the quotient of the two as floats.
pub data Call : Type 0 where
  inc : Counter → Call
  set : Gauge → ℕ → Call
  observe : Histogram → ℕ → Call
  divide : ℕ → ℕ → Call

abbrev pub Metrics : Type 0
Metrics = List Call

unfoldable pub record_step : ℕ → ℕ → Metrics → Metrics
record_step batch running_after m =
    set running_sequences running_after
    ∷ (set batch_size batch
        ∷ (if ltb 1 batch
            then inc shared_decode_steps ∷ (inc scheduler_steps ∷ m)
            else inc scheduler_steps ∷ m))

unfoldable pub set_batch_utilization : ℕ → ℕ → Metrics → Metrics
set_batch_utilization batch max_running m =
    if ltb 0 max_running then divide batch max_running ∷ m else m

abbrev observed : Histogram → Option ℕ → Metrics → Metrics
observed h none m = m
observed h (some latency) m = observe h latency ∷ m

unfoldable pub record_token : Option ℕ → Option ℕ → Metrics → Metrics
record_token first inter m =
    observed inter_token_latency inter
      (observed first_token_latency first (inc tokens_generated ∷ m))

unfoldable pub record_cancelled : Metrics → Metrics
record_cancelled m = inc cancelled_sequences ∷ m

unfoldable pub set_queue_depth : ℕ → Metrics → Metrics
set_queue_depth depth m = set queue_depth depth ∷ m

unfoldable pub set_running : ℕ → Metrics → Metrics
set_running running m = set running_sequences running ∷ m
