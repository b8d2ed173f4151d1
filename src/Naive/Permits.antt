-- ===== src/Naive/Permits.antt =====
-- The permits of the naive engine: one request holds the model and at most `max_queue_depth` wait.
use hotbatch.Base.{
  ℕ, ◌+◌, ◌≤◌, ◌<◌, ◌≡◌, ◌⊎◌, ◌-◌, inl, inr, none, some, arith, ltb, Bool-cases, dec_lt,
}
use hotbatch.Base.Checked.{word}
use hotbatch.Metrics.{Metrics, set_queue_depth}
use hotbatch.Naive.Defs.{try_acquire, release_permit}

-- While at most `max_queue_depth + 1` permits are out, `try_acquire` refuses only when they are all
-- out, or when the count is the largest `usize`, which takes a depth of at least that; otherwise one
-- more is out, which is still at most `max_queue_depth + 1` and a `usize`, and dropping the permit
-- brings the count back.
pub try_acquire_lem :
    (max_queue_depth accepted : ℕ) (m : Metrics)
    → accepted ≤ max_queue_depth + 1
    → ((try_acquire max_queue_depth accepted m ≡ none)
        × ((accepted ≡ max_queue_depth + 1) ⊎ (accepted ≤ max_queue_depth) × (word ≤ accepted + 1)))
      ⊎ ((m' : Metrics) × (try_acquire max_queue_depth accepted m ≡ some (accepted + 1, m'))
          × (accepted + 1 ≤ max_queue_depth + 1)
          × (accepted + 1 < word)
          × ((release_permit (accepted + 1) m').0 ≡ accepted))
unfolding try_acquire release_permit
try_acquire_lem max_queue_depth accepted m bound =
    elim (Bool-cases (ltb max_queue_depth accepted)) [
      | inl full ↦ inl (ground (arith, full), inl (ground (arith, full)))
      | inr room ↦ elim (dec_lt (accepted + 1) word) [
        | yes below ↦ inr (
          set_queue_depth (accepted + 1 - 1) m,
          ground (arith, room, below),
          ground (arith, room),
          below,
          omega arith,
        )
        | no over ↦
            inl (ground (arith, room, over), inr (ground (arith, room), omega (arith, over)))
      ]
    ]
