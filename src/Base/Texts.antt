-- ===== src/Base/Texts.antt =====
-- A text is the list of its characters' code points.
use Prim.Native.Char.{code}
use Prim.Native.String.{String}
use Prim.Native.Nat.{ℕ, ◌<◌}
use mathlib.Core.Path.{◌≡◌}
use mathlib.Core.Bool.{Bool, true, ◌&&◌}
use mathlib.Core.List.{List, [], ◌∷◌}
use hotbatch.Base.Lists.{All}

abbrev pub Text : Type 0
Text = List ℕ

-- A literal of the source.
abbrev pub chars : String → Text
chars String.[] = []
chars (String.◌∷◌ c rest) = code c ∷ chars rest

-- `char::is_whitespace`, `str::bytes` and `String::from_utf8_lossy` of Rust's library.
pub record Unicode : Type 0 where
  pub is_whitespace : ℕ → Bool
  pub bytes : Text → List ℕ
  pub from_utf8_lossy : List ℕ → Text
  pub small-bytes : (t : Text) → All (λ b. b < 256) (bytes t)
  pub lossy-bytes : (t : Text) → from_utf8_lossy (bytes t) ≡ t

-- `text.trim().is_empty()`
abbrev pub is_blank : (ℕ → Bool) → Text → Bool
is_blank whitespace [] = true
is_blank whitespace (c ∷ cs) = whitespace c && is_blank whitespace cs
