-- ===== src/Normalizer.antt =====
-- FromParsed of internal/normalizer/normalizer.go: the event of a parsed line. What encoding/json,
-- encoding/csv, regexp, strconv and time do is one record of parameters.
pub mod Filterlog
pub mod Firewall
pub mod OpcuaTags
pub mod Patterns
pub mod Raw
pub mod Structured
pub mod Telemetry
use ot_collector.Prelude.{ℕ, String, Option, none, some, List, [], ◌∷◌, Dict}
use ot_collector.Event.{Event, or_default}
use ot_collector.Config.Sources.{SourceConfig}
use ot_collector.Sources.{SourceInfo, resolve}
use ot_collector.Syslog.{ParsedMessage}
use ot_collector.Normalizers.{Context}
use ot_collector.Normalizers.Apply.{Regexps, apply}
use Firewall.{Clock, parse_opnsense_filterlog}
use OpcuaTags.{enrich_opcua_tags}
use Patterns.{classify_severity, classify_category}
use Structured.{Decoders, extract_structured_telemetry_json, from_structured_telemetry_json}

pub record Packages : Type 0 where
  pub decoders : Decoders
  pub itoa : ℕ → String
  pub read_csv : String → Option (List String)
  pub key_values : String → Dict String
  pub regexps : Regexps

module _ (go : Packages) where
  -- The event of a line that is neither telemetry nor of the firewall.
  unfoldable pub plain_event : Clock → String → ParsedMessage → String → SourceInfo → Event
  plain_event clock zone p source_ip src = record {
    id = clock.new_id;
    timestamp = p.timestamp;
    received_at = clock.now_text;
    zone = zone;
    source_type = src.source_type;
    asset_name = src.asset_name;
    asset_ip = or_default src.asset_ip source_ip;
    severity = classify_severity p.message p.severity_number;
    protocol = "syslog";
    event_category = classify_category p.message;
    message = p.message;
    raw = p.raw;
    tags = some (
        enrich_opcua_tags go.key_values p.message
          (("syslog_format", p.format) ∷ ("hostname", p.hostname) ∷ ("app_name", p.app_name) ∷ []));
  }

  -- The event before Apply.
  unfoldable pub event_of :
      Clock → Option (List SourceConfig) → String → ParsedMessage → String → Event
  event_of clock store zone p source_ip =
      let resolved = resolve store source_ip p.hostname p.app_name p.message in
      elim (extract_structured_telemetry_json go.decoders p.message) [
        | some payload ↦
            from_structured_telemetry_json go.decoders clock resolved source_ip zone p payload
        | none ↦
            elim (parse_opnsense_filterlog go.itoa go.read_csv clock zone p source_ip resolved) [
              | some evt ↦ evt
              | none ↦ plain_event clock zone p source_ip resolved
            ]
      ]

  -- FromParsed
  unfoldable pub from_parsed :
      Clock → Option (List SourceConfig) → String → ParsedMessage → String → Event
  from_parsed clock store zone p source_ip =
      apply go.regexps (record { parsed = p; source_ip = source_ip })
        (event_of clock store zone p source_ip)
