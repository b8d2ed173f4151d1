-- ===== src/Runtime.antt =====
-- The asynchronous runtime that the engine runs in: bounded channels, cancellation tokens, the clock
-- and the other tasks. It is a parameter. Every call answers for the world as it is at that moment
-- and returns the world after it, in which other tasks may have moved, so a theorem over all runtimes
-- is one over all interleavings.
use hotbatch.Base.{ℕ, ◌≡◌, Bool, List, [], ◌∷◌, ◌++◌, ◌==◌, if◌then◌else◌}
use hotbatch.Sequence.{GenerationRequest}
use hotbatch.Message.{StreamItem}

pub record Runtime : Type 1 where
  pub World : Type 0
  -- `sender.is_closed()`, `token.is_cancelled()` and `Instant::now()`.
  pub is_closed : ℕ → World → Bool × World
  pub is_cancelled : ℕ → World → Bool × World
  pub now : World → ℕ × World
  -- The `select!` on an idle scheduler: `true` when a request has arrived, `false` at shutdown.
  pub idle : World → Bool × World
  -- `sender.try_reserve_many(n)`: whether the permits were granted. `send` uses one of them.
  pub try_reserve_many : ℕ → ℕ → World → Bool × World
  pub send : ℕ → StreamItem → World → World
  -- `sender.try_send(item).is_ok()`
  pub try_send : ℕ → StreamItem → World → Bool × World
  -- The requests that other tasks have submitted to the queue since the last call.
  pub arrivals : World → List GenerationRequest × World
  -- What has been put into a channel so far, oldest first. Only sending adds to it.
  pub sent : World → ℕ → List StreamItem
  pub sent-is_closed : (c : ℕ) (w : World) → sent (is_closed c w).1 ≡ sent w
  pub sent-is_cancelled : (c : ℕ) (w : World) → sent (is_cancelled c w).1 ≡ sent w
  pub sent-idle : (w : World) → sent (idle w).1 ≡ sent w
  pub sent-now : (w : World) → sent (now w).1 ≡ sent w
  pub sent-arrivals : (w : World) → sent (arrivals w).1 ≡ sent w
  pub sent-try_reserve_many : (c n : ℕ) (w : World) → sent (try_reserve_many c n w).1 ≡ sent w
  pub sent-send :
      (c d : ℕ) (x : StreamItem) (w : World)
      → sent (send c x w) d ≡ (if c == d then sent w d ++ (x ∷ []) else sent w d)
  pub sent-try_send :
      (c d : ℕ) (x : StreamItem) (w : World)
      → sent (try_send c x w).1 d ≡ (
          if (try_send c x w).0
          then if c == d then sent w d ++ (x ∷ []) else sent w d
          else sent w d)
