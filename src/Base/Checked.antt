-- ===== src/Base/Checked.antt =====
-- Machine arithmetic: `usize` and `u64` are 64 bits wide.
use hotbatch.Base.Tests.{ltb, if◌then◌else◌}
use Prim.Native.Nat.{ℕ, ◌+◌, ◌^◌, ◌%◌, min, ◌-◌}
use mathlib.Core.Option.{Option, none, some}

abbrev pub word : ℕ
word = 2 ^ 64

-- `a.checked_add(b)`
abbrev pub checked_add : ℕ → ℕ → Option ℕ
checked_add a b = if ltb (a + b) word then some (a + b) else none

-- `a.saturating_add(b)`
abbrev pub saturating_add : ℕ → ℕ → ℕ
saturating_add a b = min (a + b) (word - 1)

-- `a.wrapping_add(b)`
abbrev pub wrapping_add : ℕ → ℕ → ℕ
wrapping_add a b = (a + b) % word
