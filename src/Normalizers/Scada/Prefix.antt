-- ===== src/Normalizers/Scada/Prefix.antt =====
-- The prefix of the lines of FUXA.
use Prim.Native.Char.{Char, code, len_utf8}
use Prim.Native.String.char_at
use Prim.Native.String.{char_at, past}
use Prim.Native.Nat.{compare, Ordering}
use ot_collector.Prelude.{
  ℕ, zero, suc, ◌-◌, String, Bool, true, false, ◌&&◌, not, ◌≡◌, refl, none, some, arith, ◌==◌, leb,
  Bool-cases, Option-cases, inl, inr, str_eq,
}
use ot_collector.GoText.{to_lower, lower_char}
use ot_collector.Event.{Event}
use ot_collector.Normalizers.Cases.{when_source}
use ot_collector.Normalizers.Scada.{
  Expressions, normalize_line, scada_switch, line_of, normalize_scada, apply_scada,
}

-- The text has no "T".
abbrev pub lacks_t : String → Bool
lacks_t String.[] = true
lacks_t (String.◌∷◌ c s) = not (code c == 84) && lacks_t s

and_right : (a b : Bool) → a && b ≡ true → b ≡ true
and_right true b h = h
and_right false b h = cc

not_and : (a b : Bool) → not a && b ≡ true → a ≡ false
not_and true b h = cc
not_and false b h = refl

past-t : (o : Ordering) (c : Char) → (code c == 84) ≡ false → (code (past o c) == 84) ≡ false
past-t Ordering.lt c h = refl
past-t Ordering.eq c h = h
past-t Ordering.gt c h = h

char_at-t : (s : String) (n : ℕ) → lacks_t s ≡ true → (code (char_at s n) == 84) ≡ false
char_at-t String.[] n h = rw (char_at.nil n) refl
char_at-t (String.◌∷◌ c s) zero h =
    rw (char_at.cons-zero c s) (not_and (code c == 84) (lacks_t s) h)
char_at-t (String.◌∷◌ c s) (suc n) h = rw (char_at.cons-suc c s n) (
    past-t (compare (suc n) (len_utf8 c)) (char_at s (suc n - len_utf8 c))
      (char_at-t s (suc n - len_utf8 c) (and_right (not (code c == 84)) (lacks_t s) h)))

lower_char-t : (c : Char) → (code (lower_char c) == 84) ≡ false
unfolding lower_char
lower_char-t c = elim (Bool-cases (leb 65 (code c) && leb (code c) 90)) [
  | inl upper ↦ rw upper (char_at-t "abcdefghijklmnopqrstuvwxyz" (code c - 65) refl)
  | inr other ↦ rw other (ground arith)
]

to_lower-t : (s : String) → lacks_t (to_lower s) ≡ true
unfolding to_lower
to_lower-t String.[] = refl
to_lower-t (String.◌∷◌ c s) = rw (lower_char-t c, to_lower-t s) refl

module _ (re : Expressions)
    (has_t : (s group : String) → re.line_prefix s ≡ some group → lacks_t s ≡ false) where
  no_prefix : (s : String) → re.line_prefix (to_lower s) ≡ none
  no_prefix s = elim (Option-cases (re.line_prefix (to_lower s))) [
    | inl none_found ↦ none_found
    | inr (group, found) ↦
        let lacks = to_lower-t s in let has = has_t (to_lower s) group found in cc
  ]

  normalize_line-prefix :
      (text : String) (e : Event)
      → normalize_line re text e
        ≡ normalize_line (record re { line_prefix = λ (s : String). none }) text e
  unfolding normalize_line scada_switch line_of
  normalize_line-prefix text e = rw (no_prefix text) refl

  -- The prefix that FUXA puts in front of its lines is never taken off, and its level never
  -- counts: applySCADA does with any event what it does if scadaLinePrefixRE matches nothing, as that
  -- expression, which needs a "T", is tried on a text in lower case.
  pub apply_scada-prefix :
      (strip : String → String) (e : Event)
      → apply_scada re strip e
        ≡ apply_scada (record re { line_prefix = λ (s : String). none }) strip e
  unfolding apply_scada normalize_scada when_source
  apply_scada-prefix strip e = elim (Bool-cases (str_eq e.source_type "scada")) [
    | inl scada ↦ rw scada (normalize_line-prefix _ _)
    | inr other ↦ rw other
  ]
