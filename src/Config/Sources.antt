-- ===== src/Config/Sources.antt =====
-- internal/config/sources_config.go: the known sources and their store.
use ot_collector.Prelude.{String, Bool, true, false, Option, List, [], ◌∷◌, str_eq, if◌then◌else◌}
use ot_collector.Event.{or_default}
use ot_collector.Config.Store
use ot_collector.Config.Store.{Store, Codec, Kind, Write, Read, Error}

pub record SourceConfig : Type 0 where
  pub id : String
  pub name : String
  pub type : String
  pub ip : String
  pub protocol : String
  pub impact : String
  pub zone : String
  pub enabled : Bool
  pub forward_enabled : Bool
  pub notes : String

-- The body of the loop of sanitizeSources, for a source with an id.
unfoldable pub sanitize_source : SourceConfig → SourceConfig
sanitize_source s = record s {
  name = or_default s.name s.id;
  protocol = or_default s.protocol "syslog";
}

-- Sources with no id are skipped.
unfoldable pub sanitize_sources : List SourceConfig → List SourceConfig
sanitize_sources [] = []
sanitize_sources (s ∷ ss) =
    if str_eq s.id "" then sanitize_sources ss else sanitize_source s ∷ sanitize_sources ss

-- What the default sources have in common.
abbrev source : String → String → String → String → String → String → Bool → SourceConfig
source id name type ip impact zone enabled = record {
  id = id;
  name = name;
  type = type;
  ip = ip;
  protocol = "syslog";
  impact = impact;
  zone = zone;
  enabled = enabled;
  forward_enabled = true;
  notes = "";
}

unfoldable pub default_sources : List SourceConfig
default_sources =
    source "plc1" "PLC1" "plc" "192.168.1.20" "high" "L1/L2" true
    ∷ source "plc2" "PLC2" "plc" "192.168.1.21" "high" "L1/L2" true
    ∷ source "plc3" "PLC3" "plc" "192.168.1.22" "high" "L1/L2" true
    ∷ source "plc4" "PLC4" "plc" "192.168.1.23" "high" "L1/L2" true
    ∷ source "plc5" "PLC5" "plc" "192.168.1.24" "high" "L1/L2" true
    ∷ source "fuxa-scada" "FUXA SCADA" "scada" "192.168.1.60" "high" "L2" true
    ∷ source "opcua-server" "OPC UA Server" "opcua" "192.168.1.62" "critical" "L2" true
    ∷ source "ews" "EWS" "ews" "192.168.1.50" "high" "L2/L3" true
    ∷ source "ot-firewall" "Future Firewall" "firewall" "192.168.1.254" "critical" "L3" false
    ∷ source "future-ids" "Future IDS" "ids" "" "critical" "L3" false
    ∷ []

unfoldable pub source_kind : Kind SourceConfig
source_kind = record { id = λ s. s.id; sanitize = sanitize_sources; defaults = default_sources }

module _ (codec : Codec SourceConfig) where
  -- SourceStore.Replace
  unfoldable pub replace_sources :
      Write → List SourceConfig → Store SourceConfig → Store SourceConfig × Option Error
  replace_sources = Store.replace codec source_kind

  -- SourceStore.Upsert
  unfoldable pub upsert_source :
      Write → SourceConfig → Store SourceConfig → Store SourceConfig × Option Error
  upsert_source = Store.upsert codec source_kind

  -- SourceStore.Delete
  unfoldable pub delete_source :
      Write → String → Store SourceConfig → Store SourceConfig × Option Error
  delete_source = Store.delete codec source_kind

  -- SourceStore.loadOrInit
  unfoldable pub load_sources :
      Bool → Read → Write → Store SourceConfig → Store SourceConfig × Option Error
  load_sources = Store.load_or_init codec source_kind
