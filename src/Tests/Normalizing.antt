-- ===== src/Tests/Normalizing.antt =====
-- Runs of the normalizers, and of the reading of firewall lines and of telemetry.
use mathlib.Core.Path.{subst}
use ot_collector.Prelude.{
  ℕ, ◌≡◌, refl, sym, Bool, String, true, false, none, some, List, [], ◌∷◌, Dict, lookup, str_eq,
  eq_iff, if◌then◌else◌, Bool-cases, ◌⊎◌, inl, inr,
}
use ot_collector.GoText.{to_lower, trim_space}
use ot_collector.Event.{Event, tag, tag?}
use ot_collector.Normalizers.Firewall.Alerts.{blocked_is_alert}
use ot_collector.Normalizers.{is_one_of, spell_source_type}
use ot_collector.Normalizers.Completeness.{is_odd}
use ot_collector.Normalizers.Scada.{Expressions, apply_scada}
use ot_collector.Normalizers.Scada.Prefix.{lacks_t, apply_scada-prefix}
use ot_collector.Normalizers.Apply.{Regexps, apply, apply_sources}
use ot_collector.Normalizers.Apply.Dispatch.{normalizer_of, apply_sources-normalizer_of}
use ot_collector.Normalizers.Apply.Whole.{trace, trace-apply, apply_complete}
use ot_collector.Normalizer.Filterlog.{parse_filterlog_csv, parse_fields, get_elem?, protocol_name}
use ot_collector.Normalizer.Firewall.{is_high_value_firewall_event, value_tags}
use ot_collector.Normalizer.Firewall.Icmp.{result, icmp_judged_by_id}
use ot_collector.Normalizer.Telemetry.{Json, text, copy_safe_json_fields_to_tags}
use ot_collector.Normalizer.Telemetry.Secrets.{Becomes, copy_safe_json_fields_to_tags-Becomes}
use ot_collector.Tests.{pump}
use ot_collector.Tests.Lines.{context, none_found}

-- Expressions that know the prefix of one line.
abbrev pub scada_expressions : Expressions
scada_expressions = record {
  line_prefix =
      λ (s : String). if str_eq s "2026-05-17T15:28:53Z [error] x" then some "error" else none;
  without_line_prefix = λ (s : String). s;
  quoted_connect = λ (s : String). none;
  quoted_connected = λ (s : String). none;
  read_memory_err = λ (s : String). none;
  econn_refused = λ (s : String). none;
  opcua_session = λ (s : String). false;
  opcua_subscribe = λ (s : String). false;
  opcua_conn_lost = λ (s : String). false;
}

scada_has_t : (s group : String) → scada_expressions.line_prefix s ≡ some group → lacks_t s ≡ false
scada_has_t s group h = elim (Bool-cases (str_eq s "2026-05-17T15:28:53Z [error] x")) [
  | inl same ↦
      subst (λ (x : String). lacks_t x ≡ false)
        (sym ((eq_iff s "2026-05-17T15:28:53Z [error] x").0 same)) refl
  | inr other ↦ absurd_prefix (str_eq s "2026-05-17T15:28:53Z [error] x") group other h
]
  where
    absurd_prefix :
        (b : Bool) (group : String)
        → b ≡ false
        → (if b then some "error" else none) ≡ some group
        → lacks_t s ≡ false
    absurd_prefix true group e h = cc
    absurd_prefix false group e h = cc

abbrev unchanged : String → String
unchanged s = s

abbrev scada_line : Event
scada_line = record pump { source_type = "scada"; message = "2026-05-17T15:28:53Z [error] x" }

apply_scada-prefix_example :
    apply_scada scada_expressions unchanged scada_line
    ≡ apply_scada
        (record scada_expressions { line_prefix = λ (s : String). none })
        unchanged
        scada_line
apply_scada-prefix_example = apply_scada-prefix scada_expressions scada_has_t unchanged scada_line

abbrev pub expressions : Regexps
expressions = record { strip = unchanged; user_of = none_found; scada = scada_expressions }

trace-apply_example : trace (apply expressions context scada_line) ≡ trace scada_line
trace-apply_example = trace-apply expressions context scada_line

abbrev unnamed : Event
unnamed = record pump { source_type = ""; message = ""; severity = " WARN "; asset_name = "" }

apply_complete_example :
    (str_eq (apply expressions context unnamed).message "" ≡ false)
    × (str_eq (apply expressions context unnamed).event_category "" ≡ false)
    × (str_eq (apply expressions context unnamed).source_type "" ≡ false)
    × (str_eq (apply expressions context unnamed).asset_name "" ≡ false)
    × (is_odd (apply expressions context unnamed).severity ≡ false)
apply_complete_example = apply_complete expressions context unnamed

apply_sources-normalizer_of_example :
    apply_sources expressions scada_line ≡ normalizer_of expressions "scada" scada_line
apply_sources-normalizer_of_example = apply_sources-normalizer_of expressions scada_line

-- A payload with a secret.
abbrev payload : Dict Json
payload = ("api_key", text "k") ∷ ("message", text "m") ∷ ("unit", text "u") ∷ []

abbrev no_number : ℕ → String
no_number bits = "0"

abbrev no_tags : Dict String
no_tags = []

copy_safe_json_fields_to_tags-Becomes_example :
    Becomes no_number "json_message" payload
      (lookup "json_message" no_tags)
      (lookup "json_message" (copy_safe_json_fields_to_tags no_number payload no_tags))
copy_safe_json_fields_to_tags-Becomes_example =
    copy_safe_json_fields_to_tags-Becomes no_number payload no_tags "json_message"

-- A record of an echo request whose id is 502.
abbrev ping : List String
ping =
    "5" ∷ "" ∷ "" ∷ "0" ∷ "em0" ∷ "match" ∷ "block" ∷ "in" ∷ "4" ∷ "0x0" ∷ "" ∷ "64" ∷ "1" ∷ "0"
    ∷ "none" ∷ "1" ∷ "icmp" ∷ "84" ∷ "10.0.0.1" ∷ "10.0.0.2" ∷ "request" ∷ "502" ∷ "1" ∷ []

abbrev itoa : ℕ → String
itoa n = "0"

icmp_judged_by_id_example :
    (lookup "icmp_id" (result itoa ping).tags ≡ some "502")
    × (lookup "dst_port" (result itoa ping).tags ≡ some "502")
    × ((is_high_value_firewall_event
            (to_lower (result itoa ping).action)
            "502"
            (to_lower (result itoa ping).direction)
          ≡ false)
        ⊎ (lookup "high_value_firewall_event" (value_tags (result itoa ping) []) ≡ some "true"))
unfolding get_elem? protocol_name to_lower is_high_value_firewall_event parse_filterlog_csv
    parse_fields is_one_of
icmp_judged_by_id_example = icmp_judged_by_id itoa ping "502" refl refl refl refl []

abbrev packet : Event
packet = record pump { source_type = "Firewall"; tags = some (("action", " BLOCK") ∷ []) }

blocked_is_alert_example :
    ((apply expressions context packet).message ≡ "firewall_block")
    × ((apply expressions context packet).event_category ≡ "security")
    × (tag? (apply expressions context packet) "alert_candidate" ≡ some "true")
unfolding spell_source_type to_lower trim_space tag tag? lookup
blocked_is_alert_example = blocked_is_alert expressions context packet refl refl
