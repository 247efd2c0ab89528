-- ===== src/Storage/Reads.antt =====
-- What ReadFiltered returns.
use ot_collector.Prelude.{
  ℕ, suc, is_pos, pos_part, ◌-◌, ◌≤◌, ◌<◌, ◌≡◌, sym, ap, ◌∙◌, true, false, none, some, List, [],
  ◌∷◌, ◌++◌, length, drop, keep, length-append, arith, ltb, if◌then◌else◌, Bool-cases, Option-cases,
  inl, inr, ltb→lt,
}
use mathlib.Core.List.{append-nil, append_assoc}
use ot_collector.Event.{Event}
use ot_collector.Storage.{Codec, parse_line, limit_of, read_line, read_loop, read_filtered}
use ot_collector.Storage.Lines.{lines}
use ot_collector.Storage.Query.{EventQuery, matches_query}

-- The events of some lines: those that can be parsed, in order.
unfoldable pub events_of : Codec → List (List ℕ) → List Event
events_of codec [] = []
events_of codec (line ∷ rest) = elim (parse_line codec line) [
  | none ↦ events_of codec rest
  | some e ↦ e ∷ events_of codec rest
]

-- The last n of a list.
abbrev pub last {ℓ} : {A : Type ℓ} → ℕ → List A → List A
last n xs = drop (length xs - n) xs

last_short : (n : ℕ) (xs : List Event) → length xs ≤ n → last n xs ≡ xs
last_short n xs h = ap (λ k. drop k xs) (gone (length xs) h)
  where
    gone : (l : ℕ) → l ≤ n → l - n ≡ 0
    gone l h = omega arith

-- The first of more than n counts for nothing.
last_drop :
    (n : ℕ) (ys rest : List Event)
    → n < length ys
    → last n (drop 1 ys ++ rest) ≡ last n (ys ++ rest)
last_drop n [] rest h = absurd (omega arith)
last_drop n (y ∷ ys) rest h =
    let e : suc (length (ys ++ rest)) - n ≡ suc (length (ys ++ rest) - n) =
      omega (arith, length-append ys rest) in
    rw e

-- The window with an event added, as the loop does it.
slide : ℕ → Event → List Event → List Event
slide n e window =
    let longer = window ++ e ∷ [] in if ltb n (length longer) then drop 1 longer else longer

slide_bound : (n : ℕ) (e : Event) (w : List Event) → length w ≤ n → length (slide n e w) ≤ n
unfolding slide
slide_bound n e w h = elim (Bool-cases (ltb n (length (w ++ e ∷ [])))) [
  | inl over ↦ rw over (bound w h)
  | inr fits ↦ rw fits (ground arith)
]
  where
    bound : (w : List Event) → length w ≤ n → length (drop 1 (w ++ e ∷ [])) ≤ n
    bound [] h = omega arith
    bound (x ∷ w) h = omega (arith, length-append w (e ∷ []))

last-slide :
    (n : ℕ) (e : Event) (w rest : List Event)
    → last n (slide n e w ++ rest) ≡ last n (w ++ e ∷ rest)
unfolding slide
last-slide n e w rest = elim (Bool-cases (ltb n (length (w ++ e ∷ [])))) [
  | inl over ↦ rw over (
      last_drop n (w ++ e ∷ []) rest (ltb→lt _ _ over) ∙ ap (last n) (append_assoc w (e ∷ []) rest))
  | inr fits ↦ rw fits (ap (last n) (append_assoc w (e ∷ []) rest))
]

module _ (codec : Codec) where
  pub events_of-none :
      (line : List ℕ) (ls : List (List ℕ))
      → parse_line codec line ≡ none
      → events_of codec (line ∷ ls) ≡ events_of codec ls
  unfolding events_of
  events_of-none line ls e = rw (e, events_of)

  pub events_of-some :
      (line : List ℕ) (ls : List (List ℕ)) {e : Event}
      → parse_line codec line ≡ some e
      → events_of codec (line ∷ ls) ≡ e ∷ events_of codec ls
  unfolding events_of
  events_of-some line ls e = rw (e, events_of)

module _ (codec : Codec) (q : EventQuery) where
  read_line-none :
      (line : List ℕ) (w : List Event) → parse_line codec line ≡ none → read_line codec q line w ≡ w
  unfolding read_line
  read_line-none line w e = rw (e, read_line)

  read_line_other :
      (line : List ℕ) (w : List Event) {e : Event}
      → parse_line codec line ≡ some e
      → matches_query e q ≡ false
      → read_line codec q line w ≡ w
  unfolding read_line
  read_line_other line w parsed other = rw (parsed, read_line) (rw other)

  read_line_asked :
      (line : List ℕ) (w : List Event) {e : Event}
      → parse_line codec line ≡ some e
      → matches_query e q ≡ true
      → read_line codec q line w ≡ slide (limit_of q) e w
  unfolding read_line slide
  read_line_asked line w parsed asked = rw (parsed, read_line) (rw asked)

  -- The events that are asked for.
  asked_of : List Event → List Event
  asked_of = keep (λ e. matches_query e q)

  read_loop-last :
      (ls : List (List ℕ)) (w : List Event)
      → length w ≤ limit_of q
      → read_loop codec q ls w ≡ last (limit_of q) (w ++ asked_of (events_of codec ls))
  unfolding read_loop asked_of
  read_loop-last [] w h = unfold events_of in rw append-nil (sym (last_short (limit_of q) w h))
  read_loop-last (line ∷ ls) w h = elim (Option-cases (parse_line codec line)) [
    | inl broken ↦
        rw (read_line-none line w broken, events_of-none codec line ls broken)
          (read_loop-last ls w h)
    | inr (e, parsed) ↦ elim (Bool-cases (matches_query e q)) [
      | inr other ↦
          rw (read_line_other line w parsed other, events_of-some codec line ls parsed, other)
            (read_loop-last ls w h)
      | inl asked ↦
          rw (read_line_asked line w parsed asked, events_of-some codec line ls parsed, asked)
            (read_loop-last ls (slide (limit_of q) e w) (slide_bound (limit_of q) e w h)
              ∙ last-slide (limit_of q) e w (keep (λ e. matches_query e q) (events_of codec ls)))
    ]
  ]

  -- A read returns the last events of the file that the query asks for, at most as many as its
  -- limit (100 if it is not above 0), oldest first; lines that are no event are passed over.
  pub read_filtered-last :
      (file : List ℕ)
      → read_filtered codec q (some file)
        ≡ last
            (if is_pos q.limit then pos_part q.limit else 100)
            (keep (λ e. matches_query e q) (events_of codec (lines file)))
  unfolding read_filtered asked_of limit_of
  read_filtered-last file = read_loop-last (lines file) [] (omega arith)
