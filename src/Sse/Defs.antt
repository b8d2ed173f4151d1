-- ===== src/Sse/Defs.antt =====
-- `TextOutputFilter` of crates/hotbatch-server/src/sse.rs. A string is the list of its characters, and
-- an offset counts characters: the source's byte offsets are those of whole characters, so
-- `is_char_boundary` holds of its `safe_end`.
use hotbatch.Base.{
  ℕ, suc, ◌-◌, Bool, true, false, not, ◌&&◌, Option, none, some, List, [], ◌∷◌, ◌++◌, min, max, ltb,
  ◌==◌, if◌then◌else◌, length, take, drop, is_empty, retain, Result, ok, err,
}
use hotbatch.Sequence.{longest_prefix}

pub data FilterUpdate : Type 0 where
  continue_with stop_with : List ℕ → FilterUpdate

pub data FilterError : Type 0 where
  changed_text stop_in_emitted buffering_crossed : FilterError

pub record TextOutputFilter : Type 0 where
  pub stops : List (List ℕ)
  pub emitted : List ℕ

unfoldable pub new : List (List ℕ) → TextOutputFilter
new stops = record { stops = retain (λ stop. not (is_empty stop)) stops; emitted = [] }

-- `starts_with`
unfoldable pub starts_with : List ℕ → List ℕ → Bool
starts_with text [] = true
starts_with [] (c ∷ cs) = false
starts_with (t ∷ ts) (c ∷ cs) = t == c && starts_with ts cs

-- `find`: the least offset at which the text goes on with the pattern.
unfoldable pub find : List ℕ → List ℕ → Option ℕ
unfolding starts_with
find [] pattern_ = if is_empty pattern_ then some 0 else none
find (t ∷ ts) pattern_ =
    let rest = find ts pattern_ in
    if starts_with (t ∷ ts) pattern_
    then some 0
    else elim rest [ none ↦ none | some i ↦ some (suc i) ]

-- `filter_map(find).min()`
unfoldable pub earliest_stop : List (List ℕ) → List ℕ → Option ℕ
unfolding find
earliest_stop [] decoded = none
earliest_stop (stop ∷ stops) decoded =
    let rest = earliest_stop stops decoded in
    elim (find decoded stop) [
      | none ↦ rest
      | some i ↦ elim rest [ none ↦ some i | some j ↦ some (min i j) ]
    ]

-- The longest prefix of a stop sequence with which the text ends, over all stop sequences.
unfoldable pub held_back : List (List ℕ) → List ℕ → ℕ
unfolding longest_prefix
held_back [] decoded = 0
held_back (stop ∷ stops) decoded = max (longest_prefix decoded stop) (held_back stops decoded)

unfoldable pub push :
    TextOutputFilter → List ℕ → Result FilterError (FilterUpdate × TextOutputFilter)
unfolding starts_with earliest_stop held_back
push f decoded =
    let from = length f.emitted in
    let safe_end = length decoded - held_back f.stops decoded in
    if not (starts_with decoded f.emitted)
    then err changed_text
    else elim (earliest_stop f.stops decoded) [
      | some stop_at ↦
          if ltb stop_at from
          then err stop_in_emitted
          else ok (
            stop_with (take (stop_at - from) (drop from decoded)),
            record f { emitted = f.emitted ++ take (stop_at - from) (drop from decoded) },
          )
      | none ↦
          if ltb safe_end from
          then err buffering_crossed
          else ok (
            continue_with (take (safe_end - from) (drop from decoded)),
            record f { emitted = f.emitted ++ take (safe_end - from) (drop from decoded) },
          )
    ]

unfoldable pub finish : TextOutputFilter → List ℕ → Result FilterError (List ℕ × TextOutputFilter)
finish f decoded =
    if starts_with decoded f.emitted
    then ok (
      drop (length f.emitted) decoded,
      record f { emitted = f.emitted ++ drop (length f.emitted) decoded },
    )
    else err changed_text
