-- ===== src/Normalizer/Telemetry.antt =====
-- The values of structured telemetry in internal/normalizer/normalizer.go: what of a JSON object is
-- read, and what is copied to the tags. fmt.Sprintf("%v") of a float64 is a parameter. A range
-- over a Go map takes its keys in any order: the object is a list of them, and every order is one.
pub mod Secrets
use Prim.Native.String
use ot_collector.Prelude.{
  is_some, ℕ, String, Bool, true, false, ◌&&◌, ◌||◌, not, Option, none, some, List, [], ◌∷◌, Dict,
  lookup, insert, str_eq, if◌then◌else◌,
}
use ot_collector.GoText.{to_lower, trim_space, contains, contains_any, equal_fold}
use ot_collector.Normalizers.{is_one_of}
use ot_collector.Normalizer.Patterns.{first_named}

-- interface{} as encoding/json fills it; a float64 is its bits.
pub data Json : Type 0 where
  text : String → Json
  boolean : Bool → Json
  number : ℕ → Json
  null composite : Json

-- The cases of isSensitiveKey.
abbrev pub sensitive_words : List String
sensitive_words =
    "token" ∷ "secret" ∷ "password" ∷ "passwd" ∷ "private_key" ∷ "unseal_key" ∷ "client_secret"
    ∷ "secret_id" ∷ "refresh_token" ∷ "access_token" ∷ "authorization" ∷ "cookie" ∷ "api_key" ∷ []

-- isSensitiveKey
unfoldable pub is_sensitive_key : String → Bool
is_sensitive_key key = contains_any (to_lower key) sensitive_words

-- isStructuredCoreField
unfoldable pub is_structured_core_field : String → Bool
is_structured_core_field key =
    is_one_of key
      ("source_type" ∷ "zone" ∷ "severity" ∷ "event_category" ∷ "message" ∷ "timestamp" ∷ [])

abbrev pub is_set : String → Dict String → Bool
is_set key tags = is_some (lookup key tags)

-- The name of the tag for a key; none if it is taken.
unfoldable pub target_key : String → Dict String → Option String
target_key key tags =
    let prefixed = String.◌++◌ "json_" key in
    let first = if is_structured_core_field key then prefixed else key in
    let second = if is_set first tags then prefixed else first in
    if is_set second tags then none else some second

-- normalizeSeverityText
unfoldable pub normalize_severity_text : String → String
normalize_severity_text s =
    let t = to_lower (trim_space s) in
    if is_one_of t ("debug" ∷ "trace" ∷ [])
    then "debug"
    else if is_one_of t ("info" ∷ "notice" ∷ "" ∷ [])
    then "info"
    else if is_one_of t ("warn" ∷ "warning" ∷ [])
    then "warn"
    else if is_one_of t ("error" ∷ "err" ∷ [])
    then "error"
    else if is_one_of t ("critical" ∷ "crit" ∷ "alert" ∷ "emergency" ∷ "fatal" ∷ [])
    then "critical"
    else "info"

-- inferSourceTypeFromComponent
unfoldable pub infer_source_type : String → String
infer_source_type component =
    first_named
      (("opcua" ∷ [], "opcua")
        ∷ ("gds_agent" ∷ "gds-agent" ∷ [], "gds_agent")
        ∷ ("gds" ∷ [], "gds")
        ∷ ("fuxa" ∷ "scada" ∷ [], "scada")
        ∷ ("opnsense" ∷ "firewall" ∷ [], "firewall")
        ∷ ("openplc" ∷ "plc" ∷ [], "plc")
        ∷ ("ews" ∷ [], "ews")
        ∷ ("ids" ∷ "nozomi" ∷ [], "ids")
        ∷ ("vault" ∷ [], "vault")
        ∷ [])
      "unknown" (to_lower component)

-- inferAssetNameFromComponent
unfoldable pub infer_asset_name : String → String
infer_asset_name component =
    if str_eq component "powergrid_opcua_server"
    then "OPC UA Server"
    else if str_eq component "labshock_ot_gds_agent"
    then "OT GDS Agent"
    else first_named
        (("fuxa" ∷ "scada" ∷ [], "FUXA SCADA")
          ∷ ("opnsense" ∷ [], "OPNsense OT Firewall")
          ∷ ("vault" ∷ [], "Vault")
          ∷ ("gds" ∷ [], "GDS")
          ∷ ("plc" ∷ [], "PLC")
          ∷ ("ews" ∷ [], "EWS")
          ∷ ("ids" ∷ "nozomi" ∷ [], "IDS")
          ∷ [])
        component (to_lower component)

-- The switch of inferEventCategory, for the lower-case type of the event.
unfoldable pub category_of_type : String → Bool → String
category_of_type l firewall_source =
    if contains_any l ("renewal" ∷ "renew" ∷ [])
    then "certificate_lifecycle"
    else if contains_any l ("certificate" ∷ "pki" ∷ "crl" ∷ "trust" ∷ [])
    then "pki_lifecycle"
    else if contains_any l ("session" ∷ [])
    then "session"
    else if contains_any l ("auth" ∷ "login" ∷ "unauthorized" ∷ "denied" ∷ "rejected" ∷ [])
    then "access_control"
    else if contains_any l ("firewall" ∷ "flow" ∷ "packet" ∷ [])
    then "network"
    else if contains l "connection" && firewall_source
    then "network"
    else first_named
        (("modbus" ∷ "plc" ∷ [], "data_collection")
          ∷ ("policy" ∷ "approval" ∷ "runtime_write" ∷ [], "policy_audit")
          ∷ ("failed" ∷ "failure" ∷ "error" ∷ [], "error")
          ∷ ("server" ∷ "health" ∷ "heartbeat" ∷ "recovered" ∷ [], "system_health")
          ∷ [])
        "system_health" l

module _ (sprint : ℕ → String) where
  -- scalarToString; none is its second result false.
  unfoldable pub scalar_to_string : Json → Option String
  scalar_to_string (text s) = some s
  scalar_to_string (boolean b) = some (if b then "true" else "false")
  scalar_to_string (number bits) = some (sprint bits)
  scalar_to_string null = none
  scalar_to_string composite = none

  -- x, _ := scalarToString(payload[key])
  unfoldable pub scalar_at : String → Dict Json → String
  scalar_at key payload = elim (lookup key payload) [
    | none ↦ ""
    | some v ↦ elim (scalar_to_string v) [ none ↦ "" | some s ↦ s ]
  ]

  -- inferEventCategory
  unfoldable pub infer_event_category : String → Dict Json → String
  infer_event_category event_type payload =
      let given = scalar_at "event_category" payload in
      let component = to_lower (scalar_at "component" payload) in
      if not (str_eq given "")
      then given
      else if equal_fold (scalar_at "sensitive_action" payload) "true"
      then "sensitive_operator_action"
      else category_of_type (to_lower event_type) (
          equal_fold (scalar_at "source_type" payload) "firewall"
          || contains component "firewall"
          || contains component "opnsense")

  -- The body of the loop of copySafeJSONFieldsToTags.
  unfoldable pub copy_field : String → Json → Dict String → Dict String
  copy_field key value tags =
      if is_sensitive_key key then tags else (elim (scalar_to_string value) [
        | none ↦ tags
        | some s ↦
            if str_eq s ""
            then tags
            else (elim (target_key key tags) [ none ↦ tags | some target ↦ insert target s tags ])
      ])

  -- copySafeJSONFieldsToTags
  unfoldable pub copy_safe_json_fields_to_tags : Dict Json → Dict String → Dict String
  copy_safe_json_fields_to_tags [] tags = tags
  copy_safe_json_fields_to_tags ((key, value) ∷ rest) tags =
      copy_safe_json_fields_to_tags rest (copy_field key value tags)
