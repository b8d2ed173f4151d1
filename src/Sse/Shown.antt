-- ===== src/Sse/Shown.antt =====
-- What the filter shows: each text continues what was shown, up to the held-back end or the stop.
use hotbatch.Base.{
  ℕ, zero, suc, ◌-◌, ◌≤◌, ◌≡◌, refl, sym, ap, ◌∙◌, ◌⊎◌, inl, inr, true, Option, none, some, List,
  [], ◌∷◌, ◌++◌, append_assoc, append-nil, arith, ==_iff, Bool-cases, Option-cases, length, take,
  drop, Result, ok, err, panic,
}
use hotbatch.Sequence.Suffix.{take-append-slice}
use hotbatch.Sse.Search.{
  SomeOccurs, earliest_stop-SomeOccurs, SomeOccurs-earliest_stop, SomeStart, SomeStart-held_back,
  held_back-SomeStart,
}
use hotbatch.Sse.Defs.{
  FilterUpdate, continue_with, stop_with, FilterError, TextOutputFilter, new, starts_with,
  earliest_stop, held_back, push, finish,
}

starts_with-take :
    (text prefix_ : List ℕ) → starts_with text prefix_ ≡ true → take (length prefix_) text ≡ prefix_
unfolding starts_with
starts_with-take text [] e = refl
starts_with-take [] (c ∷ cs) e = absurd (ground arith)
starts_with-take (t ∷ ts) (c ∷ cs) e =
    ground (arith, starts_with-take ts cs (ground arith), ==_iff t c)

take-drop : (n : ℕ) (xs : List ℕ) → take n xs ++ drop n xs ≡ xs
take-drop zero xs = refl
take-drop (suc n) [] = refl
take-drop (suc n) (x ∷ xs) = ap (◌∷◌ x) (take-drop n xs)

slice_joins :
    (decoded shown : List ℕ) (end : ℕ)
    → starts_with decoded shown ≡ true
    → length shown ≤ end
    → shown ++ take (end - length shown) (drop (length shown) decoded) ≡ take end decoded
slice_joins decoded shown end e l = ground (
  arith,
  take-append-slice (length shown) (end - length shown) decoded,
  starts_with-take decoded shown e,
)

-- What a `push` that succeeds makes of its two searches.
push_branches :
    (f f' : TextOutputFilter) (decoded : List ℕ) (u : FilterUpdate)
    → push f decoded ≡ ok (u, f')
    → (f'.stops ≡ f.stops)
      × (((stop_at : ℕ) × (text : List ℕ) × (u ≡ stop_with text)
            × (earliest_stop f.stops decoded ≡ some stop_at)
            × (f'.emitted ≡ f.emitted ++ text)
            × (f'.emitted ≡ take stop_at decoded))
          ⊎ ((text : List ℕ) × (u ≡ continue_with text)
              × (earliest_stop f.stops decoded ≡ none)
              × (f'.emitted ≡ f.emitted ++ text)
              × (f'.emitted ≡ take (length decoded - held_back f.stops decoded) decoded)))
unfolding push
push_branches f f' decoded u e = elim (Bool-cases (starts_with decoded f.emitted)) [
  | inr changed ↦ absurd (ground (arith, e, changed))
  | inl same ↦ elim (Option-cases (earliest_stop f.stops decoded)) [
    | inr (stop_at, hit) ↦
        let late : length f.emitted ≤ stop_at = ground (arith, e, same, hit) in
        (
          ground (arith, e, same, hit, late),
          inl (
            stop_at,
            take (stop_at - length f.emitted) (drop (length f.emitted) decoded),
            ground (arith, e, same, hit, late),
            hit,
            ground (arith, e, same, hit, late),
            ground (arith, e, same, hit, late, slice_joins decoded f.emitted stop_at same late),
          ),
        )
    | inl clear ↦
        let end = length decoded - held_back f.stops decoded in
        let late : length f.emitted ≤ end = ground (arith, e, same, clear) in
        (
          ground (arith, e, same, clear, late),
          inr (
            take (end - length f.emitted) (drop (length f.emitted) decoded),
            ground (arith, e, same, clear, late),
            clear,
            ground (arith, e, same, clear, late),
            ground (arith, e, same, clear, late, slice_joins decoded f.emitted end same late),
          ),
        )
  ]
]

-- When `push` succeeds, a stop sequence that stands in the decoded text is told, and then what has been
-- shown in all is the text up to the first place where any stop sequence stands; with none in it,
-- what has been shown is all but `held` characters, the most at the text's end with which a stop
-- sequence starts, or no characters if there are none. In both cases the text handed out is what that
-- adds to what was shown before.
pub push_lem :
    (f f' : TextOutputFilter) (decoded : List ℕ) (u : FilterUpdate)
    → push f decoded ≡ ok (u, f')
    → (f'.stops ≡ f.stops)
      × (((stop_at : ℕ) × (text : List ℕ) × (u ≡ stop_with text)
            × SomeOccurs f.stops decoded stop_at
            × ((j : ℕ) → SomeOccurs f.stops decoded j → stop_at ≤ j)
            × (f'.emitted ≡ f.emitted ++ text)
            × (f'.emitted ≡ take stop_at decoded))
          ⊎ ((held : ℕ) × (text : List ℕ) × (u ≡ continue_with text)
              × ((j : ℕ) → ¬ SomeOccurs f.stops decoded j)
              × ((held ≡ 0) ⊎ SomeStart f.stops decoded held)
              × ((k : ℕ) → SomeStart f.stops decoded k → k ≤ held)
              × (f'.emitted ≡ f.emitted ++ text)
              × (f'.emitted ≡ take (length decoded - held) decoded)))
push_lem f f' decoded u e = elim (push_branches f f' decoded u e).1 [
  | inl (stop_at, text, told, hit, added, shown) ↦ (
    (push_branches f f' decoded u e).0,
    inl (
      stop_at,
      text,
      told,
      earliest_stop-SomeOccurs f.stops decoded stop_at hit,
      λ j o.
          let (i, found, early) = SomeOccurs-earliest_stop f.stops decoded j o in
          ground (arith, hit, found, early),
      added,
      shown,
    ),
  )
  | inr (text, told, clear, added, shown) ↦ (
    (push_branches f f' decoded u e).0,
    inr (
      held_back f.stops decoded,
      text,
      told,
      λ j o.
          let (i, found, early) = SomeOccurs-earliest_stop f.stops decoded j o in
          absurd (ground (arith, clear, found)),
      held_back-SomeStart f.stops decoded,
      λ k o. SomeStart-held_back f.stops decoded k o,
      added,
      shown,
    ),
  )
]

-- `finish` after all else shows exactly the rest of the decoded text.
finish-rest :
    (f f' : TextOutputFilter) (decoded text : List ℕ)
    → finish f decoded ≡ ok (text, f')
    → f.emitted ++ text ≡ decoded
unfolding finish
finish-rest f f' decoded text e = elim (Bool-cases (starts_with decoded f.emitted)) [
  | inr changed ↦ absurd (ground (arith, e, changed))
  | inl same ↦ ground (
    arith,
    e,
    same,
    take-drop (length f.emitted) decoded,
    starts_with-take decoded f.emitted same,
  )
]

-- The texts of a stream's updates, joined, as long as none of them is a stop; `none` is an error or a
-- stop.
unfoldable pub push_all : TextOutputFilter → List (List ℕ) → Option (List ℕ × TextOutputFilter)
push_all f [] = some ([], f)
push_all f (decoded ∷ rest) = elim (push f decoded) [
  | ok (continue_with text, f1) ↦ elim (push_all f1 rest) [
    | none ↦ none
    | some (out, f') ↦ some (text ++ out, f')
  ]
  | ok (stop_with text, f1) ↦ none
  | err e ↦ none
  | panic ↦ none
]

pub push_cases :
    (r : Result FilterError (FilterUpdate × TextOutputFilter))
    → ((text : List ℕ) × (f : TextOutputFilter) × (r ≡ ok (continue_with text, f)))
      ⊎ ((text : List ℕ) × (f : TextOutputFilter) × (r ≡ ok (stop_with text, f)))
      ⊎ ((e : FilterError) × (r ≡ err e))
      ⊎ (r ≡ panic)
push_cases (ok (continue_with text, f)) = inl (text, f, refl)
push_cases (ok (stop_with text, f)) = inr (inl (text, f, refl))
push_cases (err e) = inr (inr (inl (e, refl)))
push_cases panic = inr (inr (inr refl))

pub finish_cases :
    (r : Result FilterError (List ℕ × TextOutputFilter))
    → ((text : List ℕ) × (f : TextOutputFilter) × (r ≡ ok (text, f)))
      ⊎ ((e : FilterError) × (r ≡ err e))
      ⊎ (r ≡ panic)
finish_cases (ok (text, f)) = inl (text, f, refl)
finish_cases (err e) = inr (inl (e, refl))
finish_cases panic = inr (inr refl)

push_all-emitted :
    (f f' : TextOutputFilter) (ds : List (List ℕ)) (out : List ℕ)
    → push_all f ds ≡ some (out, f')
    → f'.emitted ≡ f.emitted ++ out
unfolding push_all
push_all-emitted f f' [] out e = ground (arith, e, append-nil f.emitted)
push_all-emitted f f' (decoded ∷ rest) out e = elim (push_cases (push f decoded)) [
  | inl (text, f1, pushed) ↦ elim (Option-cases (push_all f1 rest)) [
    | inl lost ↦ absurd (ground (arith, e, pushed, lost))
    | inr ((out1, f2), more) ↦
        let (kept, shown) = push_branches f f1 decoded (continue_with text) pushed in
        ground (
          arith,
          e,
          pushed,
          more,
          shown,
          push_all-emitted f1 f2 rest out1 more,
          append_assoc f.emitted text out1,
        )
  ]
  | inr (inl (text, f1, stopped)) ↦ absurd (ground (arith, e, stopped))
  | inr (inr (inl (x, refused))) ↦ absurd (ground (arith, e, refused))
  | inr (inr (inr lost)) ↦ absurd (ground (arith, e, lost))
]

-- A stream that meets no stop sequence and ends with `finish` hands out exactly the decoded text:
-- whatever was decoded on the way, the texts of its updates and the last one join to it.
pub stream_shows :
    (stops ds : List (List ℕ)) (decoded out text : List ℕ) (f f' : TextOutputFilter)
    → push_all (new stops) ds ≡ some (out, f)
    → finish f decoded ≡ ok (text, f')
    → out ++ text ≡ decoded
unfolding new
stream_shows stops ds decoded out text f f' pushed ended =
    ap (λ l. l ++ text) (sym (push_all-emitted (new stops) f ds out pushed))
    ∙ finish-rest f f' decoded text ended
