-- ===== src/Tests/Streaming.antt =====
-- A stream with the stop sequence 9 10.
use hotbatch.Base.{ℕ, ◌-◌, ◌≡◌, ◌≤◌, ◌⊎◌, refl, some, List, [], ◌∷◌, ◌++◌, take, ok}
use hotbatch.Sequence.{find_prefix}
use hotbatch.Sse.{continue_with, stop_with, TextOutputFilter, new, starts_with, push, finish}
use hotbatch.Sse.Search.{SomeOccurs, SomeStart}
use hotbatch.Sse.Shown.{push_lem, push_all, stream_shows}

abbrev stops : List (List ℕ)
stops = (9 ∷ 10 ∷ []) ∷ []

abbrev shown : List ℕ → TextOutputFilter
shown text = record { stops = stops; emitted = text }

abbrev two : List ℕ
two = 1 ∷ 2 ∷ []

abbrev all : List ℕ
all = 1 ∷ 2 ∷ 9 ∷ 8 ∷ []

pushed_here :
    push (shown (1 ∷ [])) (1 ∷ 2 ∷ 9 ∷ []) ≡ ok (continue_with (2 ∷ []), shown (1 ∷ 2 ∷ []))
unfolding push find_prefix
pushed_here = refl

push_lem_example :
    (stops ≡ stops)
    × (((stop_at : ℕ) × (text : List ℕ) × (continue_with (2 ∷ []) ≡ stop_with text)
          × SomeOccurs stops (1 ∷ 2 ∷ 9 ∷ []) stop_at
          × ((j : ℕ) → SomeOccurs stops (1 ∷ 2 ∷ 9 ∷ []) j → stop_at ≤ j)
          × (two ≡ (1 ∷ []) ++ text)
          × (two ≡ take stop_at (1 ∷ 2 ∷ 9 ∷ [])))
        ⊎ ((held : ℕ) × (text : List ℕ) × (continue_with (2 ∷ []) ≡ continue_with text)
            × ((j : ℕ) → ¬ SomeOccurs stops (1 ∷ 2 ∷ 9 ∷ []) j)
            × ((held ≡ 0) ⊎ SomeStart stops (1 ∷ 2 ∷ 9 ∷ []) held)
            × ((k : ℕ) → SomeStart stops (1 ∷ 2 ∷ 9 ∷ []) k → k ≤ held)
            × (two ≡ (1 ∷ []) ++ text)
            × (two ≡ take (3 - held) (1 ∷ 2 ∷ 9 ∷ []))))
push_lem_example =
    push_lem (shown (1 ∷ [])) (shown (1 ∷ 2 ∷ [])) (1 ∷ 2 ∷ 9 ∷ []) (continue_with (2 ∷ []))
      pushed_here

all_pushed :
    push_all (new stops) ((1 ∷ []) ∷ (1 ∷ 2 ∷ 9 ∷ []) ∷ []) ≡ some (1 ∷ 2 ∷ [], shown (1 ∷ 2 ∷ []))
unfolding push_all push new find_prefix
all_pushed = refl

ended :
    finish (shown (1 ∷ 2 ∷ [])) (1 ∷ 2 ∷ 9 ∷ 8 ∷ []) ≡ ok (9 ∷ 8 ∷ [], shown (1 ∷ 2 ∷ 9 ∷ 8 ∷ []))
unfolding finish starts_with
ended = refl

stream_shows_example : two ++ (9 ∷ 8 ∷ []) ≡ all
stream_shows_example =
    stream_shows stops ((1 ∷ []) ∷ (1 ∷ 2 ∷ 9 ∷ []) ∷ []) (1 ∷ 2 ∷ 9 ∷ 8 ∷ []) (1 ∷ 2 ∷ [])
      (9 ∷ 8 ∷ []) (shown (1 ∷ 2 ∷ [])) (shown (1 ∷ 2 ∷ 9 ∷ 8 ∷ [])) all_pushed ended
