-- ===== src/Normalizer/Firewall.antt =====
-- The events of the firewall in internal/normalizer/normalizer.go: parseOPNsenseFilterlog and its
-- tests. The first record that encoding/csv reads of a text, strconv.Itoa, the new id and the time
-- are parameters.
pub mod Icmp
use Prim.Native.Char.{code}
use Prim.Native.String
use ot_collector.Prelude.{
  ℕ, String, Bool, true, false, ◌&&◌, ◌||◌, not, Option, none, some, List, [], ◌∷◌, Dict, insert,
  get_or_empty, str_eq, ltb, leb, ◌==◌, length, if◌then◌else◌,
}
use ot_collector.GoText.{to_lower, trim_space, contains}
use ot_collector.Event.{Event, or_default}
use ot_collector.Syslog.{ParsedMessage}
use ot_collector.Sources.{SourceInfo}
use ot_collector.Normalizers.{is_one_of}
use ot_collector.Normalizer.Filterlog.{field_at, FilterlogParseResult, parse_filterlog_csv}

-- The texts before and after the last "]".
unfoldable pub last_bracket : String → Option (String × String)
last_bracket String.[] = none
last_bracket (String.◌∷◌ c s) = elim (last_bracket s) [
  | some (before, after) ↦ some (String.◌∷◌ c before, after)
  | none ↦ if code c == 93 then some ("", s) else none
]

-- stripFilterlogStructuredData
unfoldable pub strip_filterlog_structured_data : String → String
strip_filterlog_structured_data message =
    let trimmed = trim_space message in
    elim (last_bracket trimmed) [
      | none ↦ trimmed
      | some (before, after) ↦ if contains before "[" then trim_space after else trimmed
    ]

-- s != "" && isDigit(s[0])
unfoldable pub starts_with_digit : String → Bool
starts_with_digit String.[] = false
starts_with_digit (String.◌∷◌ c s) = leb 48 (code c) && leb (code c) 57

-- protocolHintFromPort
unfoldable pub protocol_hint_from_port : String → String
protocol_hint_from_port port =
    if str_eq port "4840"
    then "opcua"
    else if str_eq port "502"
    then "modbus"
    else if str_eq port "102"
    then "s7comm"
    else if str_eq port "20000"
    then "dnp3"
    else if str_eq port "44818"
    then "enip"
    else if str_eq port "22"
    then "ssh"
    else if str_eq port "443" || str_eq port "8443"
    then "https"
    else if str_eq port "53"
    then "dns"
    else if str_eq port "80" || str_eq port "8080"
    then "http"
    else if str_eq port "8200"
    then "vault"
    else if str_eq port "8088"
    then "collector"
    else if str_eq port "1883" || str_eq port "1884"
    then "mqtt"
    else ""

-- isHighValueFirewallEvent
unfoldable pub is_high_value_firewall_event : String → String → String → Bool
is_high_value_firewall_event action dst_port direction =
    str_eq direction "in"
    && ((str_eq action "block" || str_eq action "reject")
        && is_one_of dst_port (
            "4840" ∷ "502" ∷ "22" ∷ "443" ∷ "8443" ∷ "8200" ∷ "8088" ∷ "1883" ∷ "1884" ∷ "102"
            ∷ "20000" ∷ "44818" ∷ []))

abbrev insert_unless_empty : String → String → Dict String → Dict String
insert_unless_empty k v tags = if str_eq v "" then tags else insert k v tags

-- for key, value := range from { tags[key] = value }
unfoldable pub insert_all : Dict String → Dict String → Dict String
insert_all [] tags = tags
insert_all ((k, v) ∷ rest) tags = insert_all rest (insert k v tags)

-- The tags of parseOPNsenseFilterlog before the payload is read.
unfoldable pub firewall_tags : ParsedMessage → Dict String
firewall_tags p = insert_unless_empty "app_name" p.app_name (
    insert_unless_empty "hostname" p.hostname (
      ("firewall_vendor", "opnsense")
      ∷ ("firewall_backend", "pf")
      ∷ ("firewall_daemon", "filterlog")
      ∷ ("structured_json", "false")
      ∷ ("syslog_format", p.format)
      ∷ []))

-- The tags that the payload adds.
unfoldable pub payload_tags : FilterlogParseResult → Dict String → Dict String
payload_tags r tags = insert_unless_empty "parse_warning" r.warning (
    insert_unless_empty "reason" r.reason (
      insert_unless_empty "direction" r.direction
        (insert_unless_empty "action" r.action (insert_all r.tags tags))))

-- The hint at the protocol, and the tags of an event of high value.
unfoldable pub value_tags : FilterlogParseResult → Dict String → Dict String
value_tags r tags =
    let dst_port = get_or_empty "dst_port" r.tags in
    let t = insert_unless_empty "protocol_hint" (protocol_hint_from_port dst_port) tags in
    if is_high_value_firewall_event (to_lower r.action) dst_port (to_lower r.direction)
    then insert "mitre_ics_technique_hint" "Unauthorized Access Attempt"
        (insert "mitre_ics_tactic" "Initial Access" (insert "high_value_firewall_event" "true" t))
    else t

-- The category, severity and message of the action, or of a payload that is not read well.
unfoldable pub judge : FilterlogParseResult → Event → Event
judge r evt =
    let action = to_lower r.action in
    let e =
      if str_eq action "block" || str_eq action "reject"
      then (record evt {
        event_category = "security";
        severity = "warn";
        message = if str_eq action "reject" then "firewall_reject" else "firewall_block";
      })
      else (record evt {
        event_category = "network";
        severity = "info";
        message = "firewall_pass";
      }) in
    if contains (to_lower r.reason) "bad" || not (str_eq r.warning "")
    then record e { event_category = "error"; severity = "error"; message = "firewall_event" }
    else e

-- What the normalizer gets from outside: the id and the times of the new event.
pub record Clock : Type 0 where
  pub new_id : String
  pub now_text : String
  pub timestamp_now : String

-- The event before the payload is read.
unfoldable pub firewall_event : Clock → String → ParsedMessage → String → SourceInfo → Event
firewall_event clock zone p source_ip resolved = record {
  id = clock.new_id;
  timestamp = p.timestamp;
  received_at = clock.now_text;
  zone = or_default zone "OT";
  source_type = "firewall";
  asset_name = or_default resolved.asset_name "OPNsense OT Firewall";
  asset_ip = or_default resolved.asset_ip source_ip;
  severity = "info";
  protocol = "syslog";
  event_category = "";
  message = "firewall_event";
  raw = p.raw;
  tags = some (firewall_tags p);
}

module _ (itoa : ℕ → String) (read_csv : String → Option (List String)) where
  -- looksLikeFilterlog
  unfoldable pub looks_like_filterlog : ParsedMessage → Bool
  looks_like_filterlog p =
      if contains (to_lower p.app_name) "filterlog" || contains (to_lower p.hostname) "opnsense"
      then true
      else (let body = strip_filterlog_structured_data p.message in
          starts_with_digit body && (elim (read_csv body) [
            | none ↦ false
            | some fields ↦
                not (ltb (length fields) 9)
                && is_one_of (to_lower (field_at fields 6)) ("pass" ∷ "block" ∷ "reject" ∷ [])
          ]))

  -- The event of a payload.
  unfoldable pub read_payload : FilterlogParseResult → ParsedMessage → Event → Event
  read_payload r p evt =
      judge r (record evt { tags = some (value_tags r (payload_tags r (firewall_tags p))) })

  -- parseOPNsenseFilterlog; none is its second result false.
  unfoldable pub parse_opnsense_filterlog :
      Clock → String → ParsedMessage → String → SourceInfo → Option Event
  parse_opnsense_filterlog clock zone p source_ip resolved =
      let body = trim_space (strip_filterlog_structured_data p.message) in
      let evt = firewall_event clock zone p source_ip resolved in
      if not (looks_like_filterlog p) && not (str_eq resolved.source_type "firewall")
      then none
      else if not (starts_with_digit body)
      then some (record evt {
        tags = some (insert "parse_warning" "missing filterlog csv payload" (firewall_tags p));
        event_category = "error";
        severity = "error";
      })
      else some (read_payload (parse_filterlog_csv itoa (read_csv body)) p evt)
