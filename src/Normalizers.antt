-- ===== src/Normalizers.antt =====
-- internal/normalizers/common.go, what the normalizers of all sources share, and the end of Apply in
-- internal/normalizers/apply.go. The map of tags is made by ensureBaseTags, which Apply calls first.
pub mod Apply
pub mod Cases
pub mod Completeness
pub mod Ews
pub mod Firewall
pub mod Gds
pub mod Opcua
pub mod Plc
pub mod Scada
use Prim.Native.String
use ot_collector.Prelude.{
  String, Bool, true, false, ◌||◌, not, ◌&&◌, List, [], ◌∷◌, str_eq, if◌then◌else◌,
}
use ot_collector.GoText.{to_lower, trim_space, contains, equal_fold}
use ot_collector.Event.{Event, tag, set_tag, make_tags, or_default}
use ot_collector.Syslog.{ParsedMessage}

-- Context
pub record Context : Type 0 where
  pub parsed : ParsedMessage
  pub source_ip : String

-- ensureBaseTags
unfoldable pub ensure_base_tags : Event → Event
ensure_base_tags evt = set_tag "siem_index_hint" "ot_security" (
    set_tag "normalization_source" "logs_by_sources_md" (
      set_tag "normalized" "true"
        (set_tag "parser_version" "v2.logs_by_sources_md" (make_tags evt))))

-- The guess of canonicalizeSourceIdentity from the words of a message; the source type stays as
-- it is when no word is found.
unfoldable pub guess_source_type : String → String → String
guess_source_type h source_type =
    if contains h "opnsense" || contains h "filterlog"
    then "firewall"
    else if contains h "openplc" || contains h "plc"
    then "plc"
    else if contains h "fuxa"
    then "scada"
    else if contains h "engineering" || contains h "ews"
    then "ews"
    else if contains h "opcua"
    then "opcua"
    else if contains h "gds"
    then "gds_agent"
    else source_type

-- The source type as canonicalizeSourceIdentity spells it.
unfoldable pub spell_source_type : String → String
spell_source_type s =
    let t = trim_space (to_lower s) in
    if str_eq t "gds-agent" then "gds_agent" else if str_eq t "gds" then "gds_agent" else t

-- canonicalizeSourceIdentity
unfoldable pub canonicalize_source_identity : Context → Event → Event
canonicalize_source_identity ctx evt =
    let t = spell_source_type evt.source_type in
    let h = to_lower (
      String.◌++◌ ctx.parsed.hostname
        (String.◌++◌ " " (String.◌++◌ ctx.parsed.app_name (String.◌++◌ " " evt.message)))) in
    record evt {
      source_type = if str_eq t "unknown" || str_eq t "" then guess_source_type h t else t;
      asset_ip = or_default evt.asset_ip ctx.source_ip;
    }

-- The switch of normalizeSeverity.
unfoldable pub severity_name : String → String
severity_name l =
    if str_eq l "warn" || (str_eq l "warning" || str_eq l "war")
    then "warning"
    else if str_eq l "err" || str_eq l "error"
    then "error"
    else if str_eq l "inf" || str_eq l "info"
    then "info"
    else if str_eq l "critical"
    then "critical"
    else if str_eq l ""
    then "info"
    else l

-- normalizeSeverity
unfoldable pub normalize_severity : Event → Event
normalize_severity evt =
    let original = trim_space evt.severity in
    let norm = severity_name (to_lower original) in
    let e = record evt { severity = norm } in
    if not (str_eq original "") && not (equal_fold original norm)
    then set_tag "original_severity" original e
    else e

-- The switch of setSourcetype.
unfoldable pub sourcetype_of : String → String
sourcetype_of t =
    if str_eq t "firewall"
    then "labshock:net:firewall"
    else if str_eq t "plc"
    then "labshock:ot:plc"
    else if str_eq t "scada"
    then "labshock:ot:scada"
    else if str_eq t "ews"
    then "labshock:ot:ews"
    else if str_eq t "opcua"
    then "labshock:ot:opcua"
    else if str_eq t "gds_agent"
    then "labshock:ot:gds"
    else if str_eq t "scada_gds_client"
    then "labshock:ot:scada:gds"
    else ""

-- setSourcetype
unfoldable pub set_sourcetype : Event → Event
set_sourcetype evt =
    let t = sourcetype_of evt.source_type in
    if str_eq t "" then evt else set_tag "splunk_sourcetype" t evt

-- setDecisionHint
unfoldable pub set_decision_hint : Event → Event
set_decision_hint evt =
    if not (str_eq (tag evt "collector_decision_hint") "")
    then evt
    else if str_eq evt.severity "critical"
        || (str_eq evt.severity "error" || str_eq evt.severity "warning")
    then set_tag "collector_decision_hint" "store_forward" evt
    else set_tag "collector_decision_hint" "sample_or_drop" evt

-- The cases of markAlertCandidate.
abbrev pub alerts : List String
alerts =
    "firewall_block" ∷ "plc_login_success" ∷ "plc_login_attempt" ∷ "plc_stopped"
    ∷ "scada_opcua_connection_break" ∷ "scada_script_load_error" ∷ "scada_user_created"
    ∷ "scada_settings_updated" ∷ "scada_runtime_restart" ∷ "scada_opcua_certificate_san_mismatch"
    ∷ "ews_suspicious_file_change" ∷ "private_key_access_attempt_or_skip" ∷ "unauthorized_write"
    ∷ "sensitive_write_accepted" ∷ "modbus_connection_failed" ∷ "certificate_expiry_critical"
    ∷ "gds_cert_missing_runtime" ∷ "trust_signature_invalid" ∷ "crl_freshness_failed"
    ∷ "private_key_changed" ∷ []

unfoldable pub is_one_of : String → List String → Bool
is_one_of s [] = false
is_one_of s (t ∷ ts) = str_eq s t || is_one_of s ts

-- markAlertCandidate
unfoldable pub mark_alert_candidate : Event → Event
mark_alert_candidate evt =
    if is_one_of evt.message alerts then set_tag "alert_candidate" "true" evt else evt

-- rewriteMessage
unfoldable pub rewrite_message : String → Event → Event
rewrite_message text evt =
    let message = trim_space text in
    if str_eq message "" || str_eq evt.message message
    then evt
    else record (set_tag "original_message" evt.message evt) { message = message }

-- The end of Apply, after the normalizers of the sources.
unfoldable pub finish : Context → Event → Event
finish ctx evt =
    let e = set_decision_hint (mark_alert_candidate (set_sourcetype evt)) in
    record e {
      asset_ip = or_default e.asset_ip ctx.source_ip;
      message = or_default e.message "unknown_event";
      event_category = or_default e.event_category "system";
      source_type = or_default e.source_type "unknown";
      asset_name = or_default e.asset_name "unknown";
      severity = or_default e.severity "info";
    }
