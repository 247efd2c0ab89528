-- ===== src/GoText/Blank.antt =====
-- Texts of white space, which TrimSpace empties.
use Prim.Native.Char.{Char}
use ot_collector.Prelude.{
  ◌≡◌, refl, sym, ap, eq_iff, ◌∙◌, String, Bool, true, false, ◌&&◌, str_eq, if◌then◌else◌,
  Bool-cases, inl, inr,
}
use ot_collector.GoText.{is_space, trim_left, trim_right, trim_space, push_trimmed}

unfoldable is_blank : String → Bool
is_blank String.[] = true
is_blank (String.◌∷◌ c s) = is_space c && is_blank s

left_step :
    (b : Bool) (c : Char) (s : String)
    → is_space c ≡ b
    → is_blank (trim_left s) ≡ is_blank s
    → is_blank (if b then trim_left s else String.◌∷◌ c s) ≡ b && is_blank s
unfolding is_blank
left_step true c s e h = h
left_step false c s e h = rw e refl

trim_left-blank : (s : String) → is_blank (trim_left s) ≡ is_blank s
unfolding trim_left is_blank
trim_left-blank String.[] = refl
trim_left-blank (String.◌∷◌ c s) = left_step (is_space c) c s refl (trim_left-blank s)

push_step :
    (b : Bool) (c : Char)
    → is_space c ≡ b
    → is_blank (if b then "" else String.◌∷◌ c "") ≡ b && true
unfolding is_blank
push_step true c e = refl
push_step false c e = rw e refl

push_trimmed-blank :
    (c : Char) (s : String) → is_blank (push_trimmed c s) ≡ is_space c && is_blank s
unfolding is_blank
push_trimmed-blank c String.[] = push_step (is_space c) c refl
push_trimmed-blank c (String.◌∷◌ d s) = refl

trim_right-blank : (s : String) → is_blank (trim_right s) ≡ is_blank s
unfolding trim_right is_blank
trim_right-blank String.[] = refl
trim_right-blank (String.◌∷◌ c s) =
    push_trimmed-blank c (trim_right s) ∙ ap (λ (b : Bool). is_space c && b) (trim_right-blank s)

cons_full : (c : Char) (s : String) → str_eq (String.◌∷◌ c s) "" ≡ false
cons_full c s = elim (Bool-cases (str_eq (String.◌∷◌ c s) "")) [
  | inl same ↦ let no = (eq_iff (String.◌∷◌ c s) "").0 same in cc
  | inr other ↦ other
]

and_false : (b : Bool) → b && false ≡ false
and_false true = refl
and_false false = refl

empty_step : (b : Bool) (c : Char) → str_eq (if b then "" else String.◌∷◌ c "") "" ≡ b && true
empty_step true c = refl
empty_step false c = cons_full c ""

push_trimmed-empty :
    (c : Char) (t : String) → str_eq (push_trimmed c t) "" ≡ is_space c && str_eq t ""
push_trimmed-empty c String.[] = empty_step (is_space c) c
push_trimmed-empty c (String.◌∷◌ d s) =
    cons_full c (String.◌∷◌ d s)
    ∙ sym (ap (λ (b : Bool). is_space c && b) (cons_full d s) ∙ and_false (is_space c))

trim_right-empty : (s : String) → str_eq (trim_right s) "" ≡ is_blank s
unfolding trim_right is_blank
trim_right-empty String.[] = refl
trim_right-empty (String.◌∷◌ c s) =
    push_trimmed-empty c (trim_right s) ∙ ap (λ (b : Bool). is_space c && b) (trim_right-empty s)

trim_space-empty : (s : String) → str_eq (trim_space s) "" ≡ is_blank s
unfolding trim_space
trim_space-empty s = trim_right-empty (trim_left s) ∙ trim_left-blank s

-- A text is empty after trimming it twice only if it is after trimming it once.
pub trim_space-trim_space :
    (s : String) → str_eq (trim_space (trim_space s)) "" ≡ str_eq (trim_space s) ""
unfolding trim_space
trim_space-trim_space s =
    trim_space-empty (trim_space s)
    ∙ trim_right-blank (trim_left s)
    ∙ trim_left-blank s
    ∙ sym (trim_space-empty s)
