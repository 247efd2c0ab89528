-- ===== src/Normalizers/Gds.antt =====
-- internal/normalizers/gds.go: the agent of the global discovery server.
use ot_collector.Prelude.{String, List, [], ◌∷◌}
use ot_collector.GoText.{to_lower}
use ot_collector.Event.{Event}
use ot_collector.Normalizers.Cases.{
  Case, a_case, a_severe_case, switch, name_asset, when_source, clean_message_prefix,
}

abbrev pub gds_cases : List Case
gds_cases =
    a_severe_case "certificate_expiry_critical" "pki_validation" "critical"
    ∷ a_case "certificate_inventory_drift_detected" "pki_validation"
    ∷ a_severe_case "gds_cert_missing_runtime" "pki_validation" "warning"
    ∷ record (a_case "gds_telemetry_pulled" "pki_trust_sync") {
      marks = ("noise_hint", "sample_candidate") ∷ [];
    }
    ∷ record (a_case "sync_cycle_success" "pki_trust_sync") {
      marks = ("noise_hint", "rate_limit_candidate") ∷ [];
    }
    ∷ a_severe_case "sync_cycle_failure" "gds_agent_error" "warning"
    ∷ a_case "trustlist_diff_detected" "trustlist_diff"
    ∷ a_severe_case "critical_diff_detected" "gds_agent_error" "critical"
    ∷ a_severe_case "ca_chain_changed" "pki_validation" "warning"
    ∷ a_severe_case "crl_changed" "pki_validation" "warning"
    ∷ a_case "activation_gate_ready" "pki_trust_sync"
    ∷ a_severe_case "activation_gate_denied" "pki_validation" "warning"
    ∷ a_case "package_runtime_activated" "pki_trust_sync"
    ∷ a_case "revocation_dry_run_created" "pki_validation"
    ∷ []

unfoldable pub normalize_gds : (String → String) → Event → Event
normalize_gds strip evt =
    let e = name_asset "OT GDS Agent" evt in
    switch gds_cases (to_lower (clean_message_prefix strip e.message)) e

-- applyGDSAgent
unfoldable pub apply_gds_agent : (String → String) → Event → Event
apply_gds_agent strip = when_source "gds_agent" (normalize_gds strip)
