-- ===== src/Config/Rules.antt =====
-- internal/config/rules_config.go: the rules and their store.
pub mod Sanity
pub mod Restart
use ot_collector.Prelude.{
  String, Bool, true, false, ◌&&◌, not, Option, none, some, List, [], ◌∷◌, ℤ, pos, str_eq,
  if◌then◌else◌,
}
use ot_collector.Float.{Float64, le_zero, zero_rate, one_rate}
use ot_collector.Event.{or_default}
use ot_collector.Config.Store
use ot_collector.Config.Store.{Store, Codec, Kind, Write, Read, Error}

pub record RuleConfig : Type 0 where
  pub id : String
  pub enabled : Bool
  pub source_type : String
  pub asset : String
  pub category : String
  pub severity : String
  pub operation : String
  pub event_type : String
  pub message_contains : String
  pub tag_key : String
  pub tag_value : String
  pub action : String
  pub sample_rate : Float64
  pub forward_to_dmz : Bool
  pub store_locally : Bool
  pub show_in_ui : Option Bool
  pub dedup_window_seconds : ℤ
  pub rate_limit_per_second : ℤ
  pub notes : String

abbrev blank : RuleConfig
blank = record {
  id = "";
  enabled = false;
  source_type = "";
  asset = "";
  category = "";
  severity = "";
  operation = "";
  event_type = "";
  message_contains = "";
  tag_key = "";
  tag_value = "";
  action = "";
  sample_rate = zero_rate;
  forward_to_dmz = false;
  store_locally = false;
  show_in_ui = none;
  dedup_window_seconds = pos 0;
  rate_limit_per_second = pos 0;
  notes = "";
}

-- The body of the loop of sanitizeRules, for a rule with an id.
unfoldable pub sanitize_rule : RuleConfig → RuleConfig
sanitize_rule r = record r {
  source_type = or_default r.source_type "*";
  asset = or_default r.asset "*";
  category = or_default r.category "*";
  severity = or_default r.severity "*";
  operation = or_default r.operation "*";
  event_type = or_default r.event_type "*";
  tag_key = if str_eq r.tag_key "" && not (str_eq r.tag_value "") then "*" else r.tag_key;
  action = or_default r.action "keep";
  sample_rate = if le_zero r.sample_rate then one_rate else r.sample_rate;
  show_in_ui = elim r.show_in_ui [ none ↦ some true | some b ↦ some b ];
}

-- Rules with no id are skipped.
unfoldable pub sanitize_rules : List RuleConfig → List RuleConfig
sanitize_rules [] = []
sanitize_rules (r ∷ rs) =
    if str_eq r.id "" then sanitize_rules rs else sanitize_rule r ∷ sanitize_rules rs

-- What the default rules have in common.
abbrev default_rule : RuleConfig
default_rule = record blank {
  enabled = true;
  source_type = "*";
  asset = "*";
  category = "*";
  severity = "*";
  operation = "*";
  event_type = "*";
  action = "sample";
  sample_rate = one_rate;
  store_locally = true;
  show_in_ui = some true;
}

unfoldable pub default_rules : List RuleConfig
default_rules =
    record default_rule {
      id = "rule-firewall-block-forward";
      source_type = "firewall";
      message_contains = "firewall_block";
      action = "store_and_forward";
      forward_to_dmz = true;
      notes = "Forward firewall blocks before generic noise controls";
    }
    ∷ record default_rule {
      id = "rule-firewall-reject-forward";
      source_type = "firewall";
      message_contains = "firewall_reject";
      action = "store_and_forward";
      forward_to_dmz = true;
      notes = "Forward firewall rejects before generic noise controls";
    }
    ∷ record default_rule {
      id = "rule-security-forward";
      category = "security";
      action = "store_and_forward";
      forward_to_dmz = true;
      notes = "Forward all security events";
    }
    ∷ record default_rule {
      id = "rule-critical-forward";
      severity = "critical";
      action = "store_and_forward";
      forward_to_dmz = true;
      notes = "Forward all critical events";
    }
    ∷ record default_rule {
      id = "rule-firewall-pass-sample";
      source_type = "firewall";
      message_contains = "firewall_pass";
      sample_rate = 4581421828931458171;
      dedup_window_seconds = pos 10;
      rate_limit_per_second = pos 25;
      notes = "Aggressively sample OPNsense pass logs before generic error forwarding";
    }
    ∷ record default_rule {
      id = "rule-firewall-filterlog-noise-sample";
      source_type = "firewall";
      message_contains = "filterlog";
      sample_rate = 4581421828931458171;
      dedup_window_seconds = pos 10;
      rate_limit_per_second = pos 25;
      notes = "Sample raw OPNsense filterlog noise even when parser category/severity is imperfect";
    }
    ∷ record default_rule {
      id = "rule-error-forward";
      severity = "error";
      action = "store_and_forward";
      forward_to_dmz = true;
      notes = "Forward non-firewall errors";
    }
    ∷ record default_rule {
      id = "rule-opcua-sensitive-forward";
      source_type = "opcua";
      tag_key = "sensitive_action";
      tag_value = "true";
      action = "store_and_forward";
      forward_to_dmz = true;
      notes = "Forward sensitive OPC UA actions";
    }
    ∷ record default_rule {
      id = "rule-opcua-write-forward";
      source_type = "opcua";
      category = "operator_action";
      operation = "WRITE";
      action = "store_and_forward";
      forward_to_dmz = true;
      notes = "Forward OPC UA writes";
    }
    ∷ record default_rule {
      id = "rule-opcua-read-sample";
      source_type = "opcua";
      category = "operator_action";
      operation = "READ";
      sample_rate = 4587366580439587226;
      dedup_window_seconds = pos 10;
      notes = "Sample OPC UA reads to reduce noise";
    }
    ∷ record default_rule {
      id = "rule-ews-heartbeat-sample";
      source_type = "ews";
      category = "system_health";
      severity = "info";
      message_contains = "ews_heartbeat";
      sample_rate = 4596373779694328218;
      notes = "Sample EWS heartbeat";
    }
    ∷ record default_rule {
      id = "rule-scada-heartbeat-sample";
      source_type = "scada";
      category = "system_health";
      severity = "info";
      message_contains = "heartbeat";
      sample_rate = 4591870180066957722;
      notes = "Sample SCADA heartbeat";
    }
    ∷ record default_rule {
      id = "rule-gds-sync-success-sample";
      source_type = "gds_agent";
      severity = "info";
      message_contains = "sync_cycle_success";
      sample_rate = 4598175219545276416;
      notes = "Sample GDS sync success";
    }
    ∷ record default_rule {
      id = "rule-firewall-catchall-sample";
      source_type = "firewall";
      sample_rate = 4587366580439587226;
      dedup_window_seconds = pos 10;
      rate_limit_per_second = pos 50;
      notes = "Final firewall safety valve: sample/store only unmatched firewall chatter";
    }
    ∷ record default_rule {
      id = "rule-plc-network-sample";
      source_type = "plc";
      category = "network";
      sample_rate = 4599075939470750515;
      notes = "Sample PLC network chatter";
    }
    ∷ record default_rule {
      id = "default-store-only";
      action = "store_only";
      notes = "Default catch-all: store locally only";
    }
    ∷ []

unfoldable pub rule_kind : Kind RuleConfig
rule_kind = record { id = λ r. r.id; sanitize = sanitize_rules; defaults = default_rules }

module _ (codec : Codec RuleConfig) where
  -- RuleStore.Replace
  unfoldable pub replace_rules :
      Write → List RuleConfig → Store RuleConfig → Store RuleConfig × Option Error
  unfolding Store.replace rule_kind
  replace_rules = Store.replace codec rule_kind

  -- RuleStore.Upsert
  unfoldable pub upsert_rule :
      Write → RuleConfig → Store RuleConfig → Store RuleConfig × Option Error
  unfolding Store.upsert rule_kind
  upsert_rule = Store.upsert codec rule_kind

  -- RuleStore.Delete
  unfoldable pub delete_rule : Write → String → Store RuleConfig → Store RuleConfig × Option Error
  unfolding Store.delete rule_kind
  delete_rule = Store.delete codec rule_kind

  -- RuleStore.loadOrInit
  unfoldable pub load_rules :
      Bool → Read → Write → Store RuleConfig → Store RuleConfig × Option Error
  unfolding Store.load_or_init rule_kind
  load_rules = Store.load_or_init codec rule_kind
