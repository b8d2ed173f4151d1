-- ===== src/Delivery.antt =====
-- `try_send_tokens` of crates/hotbatch-core/src/sequence.rs and `try_send_error` of scheduler.rs.
use hotbatch.Base.{
  ℕ, ◌+◌, ◌<◌, ◌≡◌, ap, Bool, true, false, Option, none, some, List, [], ◌∷◌, ◌++◌, append-nil,
  append_assoc, map, arith, ◌==◌, if◌then◌else◌, length,
}
use hotbatch.Sequence.{FinishReason}
use hotbatch.Message.{Message, StreamItem, token, done, error}
use hotbatch.Runtime.{Runtime}

-- The terminal event of an update, if it has one.
abbrev pub terminal : Option FinishReason → List StreamItem
terminal none = []
terminal (some r) = done r ∷ []

module _ (R : Runtime) where
  open R use {World, try_reserve_many, send, try_send, sent}

  -- The permits are used one by one.
  unfoldable pub send_all : ℕ → List StreamItem → World → World
  send_all c [] w = w
  send_all c (x ∷ xs) w = send_all c xs (send c x w)

  unfoldable pub try_send_tokens : ℕ → List ℕ → Option FinishReason → World → Bool × World
  try_send_tokens c tokens reason w =
      if length tokens + length (terminal reason) == 0
      then (true, w)
      else let (granted, w') = try_reserve_many c (length tokens + length (terminal reason)) w in
        if granted
        then (true, send_all c (terminal reason) (send_all c (map token tokens) w'))
        else (false, w')

  unfoldable pub try_send_error : ℕ → Message → World → Bool × World
  try_send_error c message w = try_send c (error message) w

  sent-send_all :
      (c d : ℕ) (xs : List StreamItem) (w : World)
      → sent (send_all c xs w) d ≡ (if c == d then sent w d ++ xs else sent w d)
  unfolding send_all
  sent-send_all c d [] w = ground (arith, append-nil (sent w d))
  sent-send_all c d (x ∷ xs) w = ground (
    arith,
    sent-send_all c d xs (send c x w),
    R.sent-send c d x w,
    append_assoc (sent w d) (x ∷ []) xs,
  )

  sent_both :
      (c d : ℕ) (xs ys : List StreamItem) (w : World)
      → sent (send_all c ys (send_all c xs w)) d
        ≡ (if c == d then sent w d ++ (xs ++ ys) else sent w d)
  sent_both c d xs ys w = ground (
    arith,
    sent-send_all c d ys (send_all c xs w),
    sent-send_all c d xs w,
    append_assoc (sent w d) xs ys,
  )

  update_atomic :
      (c d : ℕ) (ts : List ℕ) (r : Option FinishReason) (w : World)
      → 0 < length ts + length (terminal r)
      → sent (try_send_tokens c ts r w).1 d ≡ (
          if (try_send_tokens c ts r w).0
          then if c == d then sent w d ++ (map token ts ++ terminal r) else sent w d
          else sent w d)
  unfolding try_send_tokens
  update_atomic c d ts r w pos = ground (
    arith,
    ap (λ f. f d) (R.sent-try_reserve_many c (length ts + length (terminal r)) w),
    sent_both c d (map token ts) (terminal r)
        (try_reserve_many c (length ts + length (terminal r)) w).1,
  )

  -- An update is delivered whole or not at all: on success exactly its tokens and then its terminal
  -- event are added to the channel, on failure nothing is, and no other channel changes.
  pub try_send_tokens_atomic :
      (c d : ℕ) (tokens : List ℕ) (reason : Option FinishReason) (w : World)
      → sent (try_send_tokens c tokens reason w).1 d ≡ (
          if (try_send_tokens c tokens reason w).0
          then if c == d then sent w d ++ (map token tokens ++ terminal reason) else sent w d
          else sent w d)
  unfolding try_send_tokens
  try_send_tokens_atomic c d [] none w = ground (arith, append-nil (sent w d))
  try_send_tokens_atomic c d [] (some r) w = update_atomic c d [] (some r) w (omega arith)
  try_send_tokens_atomic c d (t ∷ ts) r w = update_atomic c d (t ∷ ts) r w (omega arith)
