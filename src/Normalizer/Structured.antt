-- ===== src/Normalizer/Structured.antt =====
-- The events of structured telemetry in internal/normalizer/normalizer.go. json.Unmarshal into a map,
-- fmt.Sprintf("%v") of a float64, and time.Parse are parameters. An offset into a text is one into
-- its bytes.
use Prim.Native.Char.{code}
use Prim.Native.String.{len, slice, char_at}
use ot_collector.Prelude.{
  is_some, lookup, ℕ, ◌%◌, String, Bool, false, ◌&&◌, ◌||◌, not, Option, none, some, List, [], ◌∷◌,
  Dict, insert, str_eq, ltb, leb, ◌==◌, if◌then◌else◌,
}
use ot_collector.GoText.{trim_space, has_prefix}
use ot_collector.Event.{Event, or_default}
use ot_collector.Sources.{SourceInfo}
use ot_collector.Syslog.{ParsedMessage}
use ot_collector.Normalizers.{is_one_of}
use ot_collector.Normalizer.Patterns.{classify_severity}
use ot_collector.Normalizer.Telemetry.{
  Json, scalar_at, infer_event_category, infer_source_type, infer_asset_name,
  normalize_severity_text, copy_safe_json_fields_to_tags,
}
use ot_collector.Normalizer.Firewall.{Clock}

-- What the code asks of a time: IsZero, and its RFC3339Nano text.
pub record Moment : Type 0 where
  pub is_zero : Bool
  pub text : String

pub record Decoders : Type 0 where
  pub decode : String → Option (Dict Json)
  pub sprint : ℕ → String
  pub rfc3339_nano : String → Option Moment
  pub rfc3339 : String → Option Moment

-- message[strings.Index(message, "{"):]
unfoldable pub from_brace : String → Option String
from_brace String.[] = none
from_brace (String.◌∷◌ c s) = if code c == 123 then some (String.◌∷◌ c s) else from_brace s

-- The text after the first ">".
unfoldable pub after_priority : String → Option String
after_priority String.[] = none
after_priority (String.◌∷◌ c s) = if code c == 62 then some s else after_priority s

unfoldable pub has_any_key : List String → Dict Json → Bool
has_any_key [] payload = false
has_any_key (key ∷ keys) payload = is_some (lookup key payload) || has_any_key keys payload

-- isRFC3164Envelope
unfoldable pub is_rfc3164_envelope : String → Bool
is_rfc3164_envelope message =
    if ltb (len message) 3
    then false
    else is_one_of (slice message 0 3) (
        "Jan" ∷ "Feb" ∷ "Mar" ∷ "Apr" ∷ "May" ∷ "Jun" ∷ "Jul" ∷ "Aug" ∷ "Sep" ∷ "Oct" ∷ "Nov"
        ∷ "Dec" ∷ [])

-- isISOEnvelope
unfoldable pub is_iso_envelope : String → Bool
is_iso_envelope message =
    if ltb (len message) 19
    then false
    else code (char_at message 4) == 45
      && (code (char_at message 7) == 45 && code (char_at message 10) == 84)

-- The end of normalizedSyslogFormat, for a raw message without white space around it.
unfoldable pub raw_format : String → String
raw_format trimmed =
    if str_eq trimmed ""
    then "unknown"
    else if has_prefix trimmed "{"
    then "raw_json"
    else if has_prefix trimmed "<"
    then (elim (after_priority trimmed) [
      | none ↦ "unknown"
      | some rest ↦
          if is_rfc3164_envelope (trim_space rest)
          then "rfc3164"
          else if is_iso_envelope (trim_space rest)
          then "iso_syslog"
          else "unknown"
    ])
    else "unknown"

-- normalizedSyslogFormat
unfoldable pub normalized_syslog_format : ParsedMessage → String → String
normalized_syslog_format p message =
    if str_eq p.format "rfc5424" || str_eq p.format "rfc3164"
    then p.format
    else if str_eq p.format "raw"
    then raw_format (trim_space message)
    else "unknown"

-- normalizeSyslogSeverity, of a priority that is not negative
unfoldable pub normalize_syslog_severity : ℕ → String
normalize_syslog_severity priority =
    let n = priority % 8 in
    if leb n 2
    then "critical"
    else if n == 3
    then "error"
    else if n == 4
    then "warn"
    else if n == 7
    then "debug"
    else "info"

abbrev pub set_unless_empty : String → String → Dict String → Dict String
set_unless_empty k v tags = if str_eq v "" then tags else insert k v tags

module _ (go : Decoders) where
  -- extractStructuredTelemetryJSON
  unfoldable pub extract_structured_telemetry_json : String → Option (Dict Json)
  extract_structured_telemetry_json message = elim (from_brace message) [
    | none ↦ none
    | some candidate ↦ elim (go.decode candidate) [
      | none ↦ none
      | some payload ↦
          if has_any_key ("source_type" ∷ "component" ∷ "event_type" ∷ "event_category" ∷ [])
            payload
          then some payload
          else none
    ]
  ]

  -- parseTelemetryTimestamp
  unfoldable pub parse_telemetry_timestamp : String → Option String
  parse_telemetry_timestamp value =
      let read = λ (m : Moment). if m.is_zero then none else some m.text in
      elim (go.rfc3339_nano value) [
        | some m ↦ read m
        | none ↦ elim (go.rfc3339 value) [ some m ↦ read m | none ↦ none ]
      ]

  -- The source type: the payload's, the component's or the address's.
  unfoldable pub telemetry_source_type : SourceInfo → Dict Json → String
  telemetry_source_type resolved payload =
      let given = scalar_at go.sprint "source_type" payload in
      let inferred = infer_source_type (scalar_at go.sprint "component" payload) in
      if not (str_eq given "")
      then given
      else if not (str_eq inferred "unknown")
      then inferred
      else or_default resolved.source_type "unknown"

  -- The severity: the payload's, the priority's or the words'.
  unfoldable pub telemetry_severity : ParsedMessage → Dict Json → String
  telemetry_severity p payload =
      let given = scalar_at go.sprint "severity" payload in
      let severity = if str_eq given "" then "" else normalize_severity_text given in
      let by_priority =
        if str_eq severity ""
        then (elim p.priority [ none ↦ "" | some n ↦ normalize_syslog_severity n ])
        else severity in
      or_default (or_default by_priority (classify_severity p.message p.severity_number)) "info"

  unfoldable pub telemetry_type : Dict Json → String
  telemetry_type payload =
      or_default (scalar_at go.sprint "event_type" payload)
        (or_default (scalar_at go.sprint "message" payload) "structured_telemetry")

  -- The time of the payload if it is one, or that of the message.
  unfoldable pub telemetry_time : Clock → ParsedMessage → Dict Json → String
  telemetry_time clock p payload =
      let given = scalar_at go.sprint "timestamp" payload in
      let own =
        if str_eq given ""
        then p.timestamp
        else (elim (parse_telemetry_timestamp given) [ none ↦ p.timestamp | some t ↦ t ]) in
      or_default own clock.timestamp_now

  -- The tags before the fields are copied.
  unfoldable pub telemetry_tags : ParsedMessage → Dict Json → Dict String
  telemetry_tags p payload =
      set_unless_empty "collector_decision_hint" (scalar_at go.sprint "collector_decision" payload)
        (set_unless_empty "event_type" (telemetry_type payload) (
          set_unless_empty "component" (scalar_at go.sprint "component" payload) (
            set_unless_empty "app_name" p.app_name (
              set_unless_empty "hostname" p.hostname (
                ("structured_json", "true")
                ∷ ("syslog_format", normalized_syslog_format p p.message)
                ∷ [])))))

  -- fromStructuredTelemetryJSON, with what sources.Resolve says
  unfoldable pub from_structured_telemetry_json :
      Clock → SourceInfo → String → String → ParsedMessage → Dict Json → Event
  from_structured_telemetry_json clock resolved source_ip zone p payload =
      let event_type = telemetry_type payload in
      let ip = or_default resolved.asset_ip source_ip in
      record {
        id = clock.new_id;
        timestamp = telemetry_time clock p payload;
        received_at = clock.now_text;
        zone = or_default (or_default (scalar_at go.sprint "zone" payload) zone) "OT";
        source_type = telemetry_source_type resolved payload;
        asset_name =
            or_default resolved.asset_name
              (infer_asset_name (scalar_at go.sprint "component" payload));
        asset_ip = or_default ip (scalar_at go.sprint "asset_ip" payload);
        severity = telemetry_severity p payload;
        protocol = "syslog";
        event_category =
            or_default
              (or_default (scalar_at go.sprint "event_category" payload)
                (infer_event_category go.sprint event_type payload))
              "system_health";
        message = event_type;
        raw = p.raw;
        tags = some (copy_safe_json_fields_to_tags go.sprint payload (telemetry_tags p payload));
      }
