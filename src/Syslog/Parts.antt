-- ===== src/Syslog/Parts.antt =====
-- What a parsed line has.
use mathlib.Core.Path.{subst}
use ot_collector.Prelude.{
  ℕ, ◌+◌, ◌*◌, ◌/◌, ◌%◌, ◌<◌, sym, eq_iff, ◌≡◌, refl, String, false, Option, none, some, arith,
  Bool-cases, Option-cases, inl, inr, str_eq, if◌then◌else◌, ◌⊎◌,
}
use ot_collector.GoText.{trim_space}
use ot_collector.Syslog.{
  ParsedMessage, Groups, Library, raw_message, rfc5424_message, rfc3164_message, priority_of,
  parse_trimmed, parse,
}

-- A facility and a severity that stand for a priority, or none of the three.
abbrev pub IsSplit : Option ℕ → Option ℕ → Option ℕ → Type 0
IsSplit none facility severity = (facility ≡ none) × (severity ≡ none)
IsSplit (some p) facility severity =
    (f : ℕ) × (s : ℕ) × (facility ≡ some f) × (severity ≡ some s) × (p ≡ f * 8 + s) × (s < 8)

-- What a parse of a trimmed text promises.
pub record IsParsed (text : String) (m : ParsedMessage) : Type 0 where
  pub raw_kept : m.raw ≡ text
  pub priority_split : IsSplit m.priority m.facility m.severity_number
  pub message_kept : (m.format ≡ "rfc3164") ⊎ (str_eq m.message "" ≡ str_eq text "")

module _ (go : Library) where
  raw_message-IsParsed : (text : String) → IsParsed text (raw_message go text)
  unfolding raw_message
  raw_message-IsParsed text = record {
    raw_kept = refl;
    priority_split = (refl, refl);
    message_kept = inr refl;
  }

  priority-IsSplit : (p : ℕ) → IsSplit (some p) (some (p / 8)) (some (p % 8))
  priority-IsSplit p = (p / 8, p % 8, refl, refl, omega arith, omega arith)

  kept_message :
      (msg text : String)
      → str_eq text "" ≡ false
      → str_eq (if str_eq msg "" then text else msg) "" ≡ str_eq text ""
  kept_message msg text some_text = elim (Bool-cases (str_eq msg "")) [
    | inl empty ↦ rw empty
    | inr full ↦ rw (full, full, some_text)
  ]

  rfc5424_message-IsParsed :
      (text : String) (m : Groups)
      → str_eq text "" ≡ false
      → IsParsed text (rfc5424_message go text m)
  unfolding rfc5424_message
  rfc5424_message-IsParsed text m some_text = record {
    raw_kept = refl;
    priority_split = priority-IsSplit (priority_of go m.digits);
    message_kept = inr (kept_message (trim_space m.rest) text some_text);
  }

  rfc3164_message-IsParsed :
      (text : String) (m : Groups) → IsParsed text (rfc3164_message go text m)
  unfolding rfc3164_message
  rfc3164_message-IsParsed text m = elim (Bool-cases (str_eq m.digits "")) [
    | inl absent ↦
        rw absent
          (record { raw_kept = refl; priority_split = (refl, refl); message_kept = inl refl })
    | inr given ↦ rw given (record {
      raw_kept = refl;
      priority_split = priority-IsSplit (priority_of go m.digits);
      message_kept = inl refl;
    })
  ]

  parse_trimmed-IsParsed : (text : String) → IsParsed text (parse_trimmed go text)
  unfolding parse_trimmed
  parse_trimmed-IsParsed text = elim (Bool-cases (str_eq text "")) [
    | inl empty ↦ rw empty (
        subst (λ t. IsParsed t (raw_message go "")) (sym ((eq_iff text "").0 empty))
          (raw_message-IsParsed ""))
    | inr full ↦ elim (Option-cases (go.rfc5424_re text)) [
      | inr (m, hit) ↦ rw (full, hit) (rfc5424_message-IsParsed text m full)
      | inl miss ↦ elim (Option-cases (go.rfc3164_re text)) [
        | inr (m, hit) ↦ rw (full, miss, hit) (rfc3164_message-IsParsed text m)
        | inl other ↦ rw (full, miss, other) (raw_message-IsParsed text)
      ]
    ]
  ]

  -- Whatever the line, whatever the two expressions match in it and whatever the clock says, a
  -- parse keeps the line, trimmed, as the raw text; it has a facility and a severity below 8 exactly if it has
  -- a priority, which is 8 times the facility plus the severity; and, unless its format is
  -- rfc3164, its message is empty only if the trimmed line is.
  pub parse-IsParsed : (raw : String) → IsParsed (trim_space raw) (parse go raw)
  unfolding parse
  parse-IsParsed raw = parse_trimmed-IsParsed (trim_space raw)
