-- ===== src/Normalizers/Apply.antt =====
-- Apply of internal/normalizers/apply.go: the normalizers of all sources, one after the other.
pub mod Dispatch
pub mod Kept
pub mod Lines
pub mod Ready
pub mod Words
pub mod Whole
use ot_collector.Prelude.{String, Option}
use ot_collector.Event.{Event}
use ot_collector.Normalizers.{
  Context, ensure_base_tags, canonicalize_source_identity, normalize_severity, finish,
}
use ot_collector.Normalizers.Firewall.{apply_firewall}
use ot_collector.Normalizers.Plc.{apply_plc}
use ot_collector.Normalizers.Scada.{Expressions, apply_scada}
use ot_collector.Normalizers.Ews.{apply_ews, apply_fuxa_gds_client}
use ot_collector.Normalizers.Opcua.{apply_opcua}
use ot_collector.Normalizers.Gds.{apply_gds_agent}

-- The regular expressions of the package: syslogPrefixRE, plcUserRE and those of scada.go.
pub record Regexps : Type 0 where
  pub strip : String → String
  pub user_of : String → Option String
  pub scada : Expressions

-- What Apply does before the normalizers of the sources.
unfoldable pub prepare : Context → Event → Event
prepare ctx evt = normalize_severity (canonicalize_source_identity ctx (ensure_base_tags evt))

module _ (re : Regexps) where
  -- The normalizers of the sources, in their order.
  unfoldable pub apply_sources : Event → Event
  apply_sources evt = apply_fuxa_gds_client re.strip (
      apply_gds_agent re.strip (
        apply_opcua re.strip (
          apply_ews re.strip
            (apply_scada re.scada re.strip (apply_plc re.strip re.user_of (apply_firewall evt))))))

  -- Apply
  unfoldable pub apply : Context → Event → Event
  apply ctx evt = finish ctx (apply_sources (prepare ctx evt))
