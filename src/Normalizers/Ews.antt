-- ===== src/Normalizers/Ews.antt =====
-- internal/normalizers/ews.go, and fuxa_gds.go, the client of the global discovery server in FUXA.
use ot_collector.Prelude.{String, List, [], ◌∷◌}
use ot_collector.GoText.{to_lower}
use ot_collector.Event.{Event, or_default}
use ot_collector.Normalizers.Cases.{
  Case, a_case, a_severe_case, switch, name_asset, when_source, clean_message_prefix,
}

abbrev pub ews_cases : List Case
ews_cases =
    record (a_severe_case "suspicious_file_change" "security" "warning") {
      text = "ews_suspicious_file_change";
    }
    ∷ a_severe_case "collector_send_failed" "error" "warning"
    ∷ a_severe_case "collector_send_recovered" "system_health" "info"
    ∷ a_severe_case "private_key_access_attempt_or_skip" "security" "warning"
    ∷ record (a_case "ews_heartbeat" "system_health") {
      marks = ("noise_hint", "sample_candidate") ∷ [];
    }
    ∷ []

abbrev pub fuxa_gds_cases : List Case
fuxa_gds_cases =
    a_severe_case "trust_signature_invalid" "security" "error"
    ∷ a_severe_case "crl_freshness_failed" "pki_lifecycle" "error"
    ∷ a_severe_case "private_key_changed" "security" "critical"
    ∷ []

-- What both do for their source: the asset's defaults, and the switch.
unfoldable pub normalize_client : (String → String) → String → String → List Case → Event → Event
normalize_client strip name ip cases evt =
    let named = name_asset name evt in
    let e = record named { asset_ip = or_default named.asset_ip ip } in
    switch cases (to_lower (clean_message_prefix strip e.message)) e

-- applyEWS
unfoldable pub apply_ews : (String → String) → Event → Event
apply_ews strip =
    when_source "ews" (normalize_client strip "Engineering Workstation" "192.168.1.50" ews_cases)

-- applyFUXAGDSClient
unfoldable pub apply_fuxa_gds_client : (String → String) → Event → Event
apply_fuxa_gds_client strip =
    when_source "scada_gds_client"
      (normalize_client strip "FUXA SCADA GDS Client" "192.168.1.60" fuxa_gds_cases)
