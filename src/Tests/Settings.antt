-- ===== src/Tests/Settings.antt =====
-- Runs of the stores, the counters and the environment.
use ot_collector.Prelude.{
  ◌≡◌, refl, String, true, false, not, Option, none, List, [], ◌∷◌, ℤ, str_eq, keep, if◌then◌else◌,
}
use ot_collector.Config.Store.{written, contents}
use ot_collector.Config.Store.Reload.{ReadsBack}
use ot_collector.Config.Store.Items.{item_of, item_of-keep}
use ot_collector.Config.Rules.{RuleConfig, sanitize_rules, rule_kind, replace_rules, load_rules}
use ot_collector.Config.Rules.Restart.{found_again, load_rules-replace_rules}
use ot_collector.Config.Forwarding.Counters.{Result}
use ot_collector.Config.Sources.{SourceConfig}
use ot_collector.Tests.{noisy, one_list, no_rules}

-- A rule with neither an action nor patterns.
abbrev bare : RuleConfig
bare = record noisy { id = "r2"; action = ""; source_type = ""; sample_rate = 0; show_in_ui = none }

abbrev posted : List RuleConfig
posted = noisy ∷ bare ∷ []

item_of-keep_example :
    item_of rule_kind "r1" (keep (λ (x : RuleConfig). not (str_eq (rule_kind.id x) "r2")) posted)
    ≡ (if str_eq "r2" "r1" then none else item_of rule_kind "r1" posted)
item_of-keep_example = item_of-keep (one_list []) rule_kind "r2" "r1" posted

saved :
    (xs : List RuleConfig)
    → ReadsBack (one_list (sanitize_rules xs)) rule_kind (sanitize_rules xs) "[]"
saved xs = record { encoded = refl; decoded = refl; not_empty = refl }

load_rules-replace_rules_example :
    (load_rules (one_list (sanitize_rules posted)) true (contents "[]") written no_rules).0.items
    ≡ found_again (replace_rules (one_list (sanitize_rules posted)) written posted no_rules).0.items
load_rules-replace_rules_example =
    load_rules-replace_rules (one_list (sanitize_rules posted)) posted no_rules no_rules "[]"
      (saved posted)

abbrev results : List Result
results =
    record { success = true; when = "t1"; err_msg = ""; event_id = "e1" }
    ∷ record { success = false; when = "t2"; err_msg = "refused"; event_id = "e2" }
    ∷ []

abbrev unset : String → String
unset key = ""

abbrev no_number : String → Option ℤ
no_number text = none

-- Two sources, and one that is off.
abbrev plant : List SourceConfig
plant =
    record {
      id = "plc1";
      name = "PLC1";
      type = "plc";
      ip = "10.0.0.1";
      protocol = "syslog";
      impact = "high";
      zone = "L1";
      enabled = true;
      forward_enabled = true;
      notes = "";
    }
    ∷ record {
      id = "ids";
      name = "IDS";
      type = "ids";
      ip = "10.0.0.2";
      protocol = "syslog";
      impact = "high";
      zone = "L3";
      enabled = false;
      forward_enabled = true;
      notes = "";
    }
    ∷ []
