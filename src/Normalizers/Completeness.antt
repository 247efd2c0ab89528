-- ===== src/Normalizers/Completeness.antt =====
-- What every normalized event has.
use ot_collector.GoText.{to_lower, trim_space}
use ot_collector.Prelude.{
  ap, ◌∙◌, ◌≡◌, refl, String, Bool, true, false, arith, Bool-cases, inl, inr, str_eq, ◌||◌,
  if◌then◌else◌,
}
use ot_collector.Event.{Event, set_tag, or_default-ne}
use ot_collector.Normalizers.{Context, severity_name, normalize_severity, finish}

-- The spellings that normalizeSeverity does away with.
abbrev pub is_odd : String → Bool
is_odd s =
    str_eq s "" || (str_eq s "warn" || (str_eq s "war" || (str_eq s "err" || str_eq s "inf")))

or_none : (a b : Bool) → a || b ≡ false → (a ≡ false) × (b ≡ false)
or_none false false h = (refl, refl)
or_none false true h = cc
or_none true b h = cc

-- What the tests of the switch leave, if all of them fail.
none_odd :
    (l : String)
    → str_eq l "warn" || (str_eq l "warning" || str_eq l "war") ≡ false
    → str_eq l "err" || str_eq l "error" ≡ false
    → str_eq l "inf" || str_eq l "info" ≡ false
    → str_eq l "" ≡ false
    → is_odd l ≡ false
none_odd l w e i n =
    let (not_warn, more) = or_none (str_eq l "warn") (str_eq l "warning" || str_eq l "war") w in
    let (_, not_war) = or_none (str_eq l "warning") (str_eq l "war") more in
    let (not_err, _) = or_none (str_eq l "err") (str_eq l "error") e in
    let (not_inf, _) = or_none (str_eq l "inf") (str_eq l "info") i in
    rw (n, not_warn, not_war, not_err, not_inf)

severity_name-odd : (l : String) → is_odd (severity_name l) ≡ false
unfolding severity_name
severity_name-odd l =
    elim (Bool-cases (str_eq l "warn" || (str_eq l "warning" || str_eq l "war"))) [
      | inl w ↦ rw (severity_name, w)
      | inr w ↦ elim (Bool-cases (str_eq l "err" || str_eq l "error")) [
        | inl e ↦ rw (severity_name, w, e)
        | inr e ↦ elim (Bool-cases (str_eq l "inf" || str_eq l "info")) [
          | inl i ↦ rw (severity_name, w, e, i)
          | inr i ↦ elim (Bool-cases (str_eq l "critical")) [
            | inl c ↦ rw (severity_name, w, e, i, c)
            | inr c ↦ elim (Bool-cases (str_eq l "")) [
              | inl n ↦ rw (severity_name, w, e, i, c, n)
              | inr n ↦ rw (severity_name, w, e, i, c, n) (none_odd l w e i n)
            ]
          ]
        ]
      ]
    ]

set_tag-severity : (k v : String) (e : Event) → (set_tag k v e).severity ≡ e.severity
unfolding set_tag
set_tag-severity k v e = ground arith

tagged_severity :
    (b : Bool) (k v : String) (e : Event) → (if b then set_tag k v e else e).severity ≡ e.severity
tagged_severity true k v e = set_tag-severity k v e
tagged_severity false k v e = refl

severity_after :
    (e : Event) → (normalize_severity e).severity ≡ severity_name (to_lower (trim_space e.severity))
unfolding normalize_severity
severity_after e = tagged_severity _ _ _ _

-- Whatever the severity of an event, normalizeSeverity leaves one that is written out in full: it is
-- not empty, and none of "warn", "war", "err" and "inf".
pub normalize_severity-odd : (e : Event) → is_odd (normalize_severity e).severity ≡ false
normalize_severity-odd e =
    ap is_odd (severity_after e) ∙ severity_name-odd (to_lower (trim_space e.severity))

-- Whatever the normalizers of the sources leave, the end of Apply gives an event a message, a
-- category, a source type, an asset name and a severity that are not empty.
pub finish_complete :
    (ctx : Context) (e : Event)
    → let f = finish ctx e in
      (str_eq f.message "" ≡ false)
      × (str_eq f.event_category "" ≡ false)
      × (str_eq f.source_type "" ≡ false)
      × (str_eq f.asset_name "" ≡ false)
      × (str_eq f.severity "" ≡ false)
unfolding finish
finish_complete ctx e = (
  or_default-ne _ "unknown_event" refl,
  or_default-ne _ "system" refl,
  or_default-ne _ "unknown" refl,
  or_default-ne _ "unknown" refl,
  or_default-ne _ "info" refl,
)
