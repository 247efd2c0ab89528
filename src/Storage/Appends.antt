-- ===== src/Storage/Appends.antt =====
-- What a read finds after Append.
use ot_collector.Prelude.{
  ℕ, ◌≡◌, refl, sym, ap, ◌∙◌, ◌⊎◌, false, none, some, List, [], ◌∷◌, ◌++◌, if◌then◌else◌,
  Bool-cases, Option-cases, inl, inr, All, ◌==◌,
}
use ot_collector.Event.{Event}
use ot_collector.Storage.{Codec, parse_line, append, works, write_bytes}
use ot_collector.Storage.Lines.{
  sanitize_line, trim_front, trim_back, push_kept, lines, push_byte, newline, has_null,
}
use ot_collector.Storage.Reads.{events_of, events_of-none, events_of-some}

-- A file that is empty or whose last byte is a newline.
abbrev pub IsWhole : List ℕ → Type 0
IsWhole [] = Unit
IsWhole (b ∷ []) = b ≡ newline
IsWhole (b ∷ c ∷ bs) = IsWhole (c ∷ bs)

-- A record holds no newline.
abbrev pub HasNoNewline : List ℕ → Type 0
HasNoNewline = All (λ b. (b == newline) ≡ false)

lines_record :
    (bytes : List ℕ)
    → HasNoNewline bytes
    → lines (bytes ++ newline ∷ []) ≡ (bytes ++ newline ∷ []) ∷ []
unfolding lines
lines_record [] _ = refl
lines_record (b ∷ bs) (h, rest) = rw (h, lines_record bs rest)

abbrev step : ℕ → List (List ℕ) → List (List ℕ)
step b ls = if b == newline then (b ∷ []) ∷ ls else push_byte b ls

-- A file that is not empty has a first line.
lines-cons : (b : ℕ) (bs : List ℕ) → (l : List ℕ) × (ls : List (List ℕ)) × (lines (b ∷ bs) ≡ l ∷ ls)
unfolding lines
lines-cons b bs = elim (Bool-cases (b == newline)) [
  | inl end ↦ (b ∷ [], lines bs, rw end)
  | inr on ↦ elim (first (lines bs)) [
    | inl e ↦ (b ∷ [], [], rw (on, e))
    | inr (l, ls, e) ↦ (b ∷ l, ls, rw (on, e))
  ]
]
  where
    first : (ls : List (List ℕ)) → (ls ≡ []) ⊎ ((l : List ℕ) × (r : List (List ℕ)) × (ls ≡ l ∷ r))
    first [] = inl refl
    first (l ∷ r) = inr (l, r, refl)

step-append :
    (b : ℕ) (l : List ℕ) (ls more : List (List ℕ))
    → step b (l ∷ (ls ++ more)) ≡ step b (l ∷ ls) ++ more
step-append b l ls more = elim (Bool-cases (b == newline)) [ inl e ↦ rw e | inr e ↦ rw e ]

-- The lines of a whole file come before the lines of what is added.
pub lines-append :
    (file rest : List ℕ) → IsWhole file → lines (file ++ rest) ≡ lines file ++ lines rest
unfolding lines
lines-append [] rest _ = refl
lines-append (b ∷ []) rest h = rw h
lines-append (b ∷ c ∷ bs) rest h =
    let (l, ls, e) = lines-cons c bs in
    ap (step b) (lines-append (c ∷ bs) rest h ∙ ap (λ t. t ++ lines rest) e)
    ∙ step-append b l ls (lines rest)
    ∙ ap (λ t. step b t ++ lines rest) (sym e)

events_of-append :
    (codec : Codec) (xs ys : List (List ℕ))
    → events_of codec (xs ++ ys) ≡ events_of codec xs ++ events_of codec ys
unfolding events_of
events_of-append codec [] ys = refl
events_of-append codec (x ∷ xs) ys = elim (Option-cases (parse_line codec x)) [
  | inl e ↦
      events_of-none codec x (xs ++ ys) e
      ∙ events_of-append codec xs ys
      ∙ ap (λ t. t ++ events_of codec ys) (sym (events_of-none codec x xs e))
  | inr (v, e) ↦
      events_of-some codec x (xs ++ ys) e
      ∙ ap (◌∷◌ v) (events_of-append codec xs ys)
      ∙ ap (λ t. t ++ events_of codec ys) (sym (events_of-some codec x xs e))
]

pub IsWhole-append : (file bytes : List ℕ) → IsWhole (file ++ (bytes ++ newline ∷ []))
IsWhole-append [] [] = refl
IsWhole-append [] (b ∷ []) = refl
IsWhole-append [] (b ∷ c ∷ bs) = IsWhole-append [] (c ∷ bs)
IsWhole-append (b ∷ []) [] = refl
IsWhole-append (b ∷ []) (c ∷ bs) = IsWhole-append [] (c ∷ bs)
IsWhole-append (b ∷ c ∷ file) bytes = IsWhole-append (c ∷ file) bytes

-- The bytes of "{" and "}".
abbrev pub open_brace : ℕ
open_brace = 123

abbrev pub close_brace : ℕ
close_brace = 125

-- The codec's record of an event: a JSON object, with no newline and no null byte in it, that the
-- codec reads back.
pub record IsRecord (codec : Codec) (evt : Event) (bytes : List ℕ) : Type 0 where
  pub marshalled : codec.marshal evt ≡ some bytes
  pub no_newline : HasNoNewline bytes
  pub no_null : has_null bytes ≡ false
  pub middle : List ℕ
  pub in_braces : bytes ≡ open_brace ∷ (middle ++ close_brace ∷ [])
  pub reads_back : codec.unmarshal bytes ≡ some evt

push_kept_more : (b c : ℕ) (xs : List ℕ) → push_kept b (xs ++ c ∷ []) ≡ b ∷ (xs ++ c ∷ [])
push_kept_more b c [] = refl
push_kept_more b c (x ∷ xs) = refl

-- Only the newline is taken off an object.
trim_back-object :
    (xs : List ℕ) → trim_back ((xs ++ close_brace ∷ []) ++ newline ∷ []) ≡ xs ++ close_brace ∷ []
unfolding trim_back
trim_back-object [] = refl
trim_back-object (x ∷ xs) = ap (push_kept x) (trim_back-object xs) ∙ push_kept_more x close_brace xs

sanitize_line-object :
    (xs : List ℕ)
    → sanitize_line ((open_brace ∷ (xs ++ close_brace ∷ [])) ++ newline ∷ [])
      ≡ open_brace ∷ (xs ++ close_brace ∷ [])
unfolding sanitize_line trim_front trim_back
sanitize_line-object xs =
    ap (push_kept open_brace) (trim_back-object xs) ∙ push_kept_more open_brace close_brace xs

parse_line-record :
    (codec : Codec) (evt : Event) (bytes : List ℕ)
    → IsRecord codec evt bytes
    → parse_line codec (bytes ++ newline ∷ []) ≡ some evt
unfolding parse_line
parse_line-record codec evt bytes r =
    ap (λ (l : List ℕ). parse_line codec (l ++ newline ∷ [])) r.in_braces
    ∙ rw (parse_line, sanitize_line-object r.middle)
        (ap codec.unmarshal (sym r.in_braces) ∙ r.reads_back)

pub record_added :
    (codec : Codec) (evt : Event) (bytes file : List ℕ)
    → IsRecord codec evt bytes
    → IsWhole file
    → events_of codec (lines (file ++ (bytes ++ newline ∷ [])))
      ≡ events_of codec (lines file) ++ evt ∷ []
record_added codec evt bytes file r whole =
    ap (events_of codec) (
      lines-append file (bytes ++ newline ∷ []) whole
      ∙ ap (◌++◌ (lines file)) (lines_record bytes r.no_newline))
    ∙ events_of-append codec (lines file) ((bytes ++ newline ∷ []) ∷ [])
    ∙ ap (◌++◌ (events_of codec (lines file))) (
        events_of-some codec (bytes ++ newline ∷ []) [] (parse_line-record codec evt bytes r)
        ∙ unfold events_of in refl)

-- Append on a disk that works, to a file that is empty or ends in a newline, of an event whose JSON
-- record is an object in braces, has no newline and no null byte and is decoded to the event again:
-- there is no error, a read finds all the events that were there and then this one, and the file ends
-- in a newline again.
pub append_lem :
    (codec : Codec) (evt : Event) (bytes file : List ℕ)
    → IsRecord codec evt bytes
    → IsWhole file
    → let (file', err) = append codec works evt file in
      (err ≡ none)
      × (events_of codec (lines file') ≡ events_of codec (lines file) ++ evt ∷ [])
      × IsWhole file'
unfolding append write_bytes
append_lem codec evt bytes file r whole =
    rw (r.marshalled, r.no_null)
      (refl, record_added codec evt bytes file r whole, IsWhole-append file bytes)
