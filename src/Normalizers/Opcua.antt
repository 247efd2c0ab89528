-- ===== src/Normalizers/Opcua.antt =====
-- internal/normalizers/opcua.go.
use ot_collector.Prelude.{String, ◌||◌, List, [], ◌∷◌, str_eq, if◌then◌else◌}
use ot_collector.GoText.{to_lower, equal_fold}
use ot_collector.Event.{Event, tag}
use ot_collector.Normalizers.{rewrite_message}
use ot_collector.Normalizers.Cases.{
  Case, a_case, a_severe_case, switch, when_source, clean_message_prefix,
}

-- A case with a second spelling of its words.
abbrev also : String → Case → Case
also words c = record c { needles = words ∷ c.needles }

abbrev pub opcua_cases : List Case
opcua_cases =
    also "server startup" (a_case "server_startup" "system_health")
    ∷ also "server ready" (a_case "server_ready" "system_health")
    ∷ also "modbus connection failed"
        (a_severe_case "modbus_connection_failed" "data_collection" "error")
    ∷ also "modbus connection recovered" (a_case "modbus_connection_recovered" "system_health")
    ∷ a_severe_case "modbus_write_failed" "error" "error"
    ∷ a_severe_case "unauthorized_write" "access_control" "warning"
    ∷ a_case "sensitive_write_accepted" "sensitive_operator_action"
    ∷ a_severe_case "opcua_write_rejected" "error" "error"
    ∷ a_case "session_activated" "session"
    ∷ a_severe_case "unexpected_anonymous_session" "access_control" "warning"
    ∷ a_severe_case "abnormal_session_close" "session" "warning"
    ∷ a_case "certificate_verified" "pki_lifecycle"
    ∷ a_severe_case "pki_load_failed" "pki_lifecycle" "critical"
    ∷ []

-- The first part of applyOPCUA.
unfoldable pub name_opcua : Event → Event
name_opcua evt =
    if str_eq evt.asset_name ""
      || (equal_fold evt.asset_name "unknown" || str_eq evt.asset_name "powergrid_opcua_server")
    then record evt { asset_name = "OPC UA Server" }
    else evt

-- if evt.Tags["event_type"] != "" { rewriteMessage(evt, evt.Tags["event_type"]) }
unfoldable pub rewrite_event_type : Event → Event
rewrite_event_type evt =
    if str_eq (tag evt "event_type") "" then evt else rewrite_message (tag evt "event_type") evt

unfoldable pub normalize_opcua : (String → String) → Event → Event
normalize_opcua strip evt =
    let e = name_opcua evt in
    switch opcua_cases (to_lower (clean_message_prefix strip e.message)) (rewrite_event_type e)

-- applyOPCUA
unfoldable pub apply_opcua : (String → String) → Event → Event
apply_opcua strip = when_source "opcua" (normalize_opcua strip)
