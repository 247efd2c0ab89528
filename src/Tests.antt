-- ===== src/Tests.antt =====
-- Concrete runs of the components, on the data below.
mod Engines
mod Files
mod Queues
mod Syslog
mod Settings
mod Collector
mod Lines
mod Normalizing
mod Running
use ot_collector.Prelude.{
  ◌&&◌, ℕ, String, Bool, true, false, Option, none, some, List, [], ◌∷◌, pos, Dict, ◌==◌, str_eq,
  if◌then◌else◌, lookup, count_of, insert, bump,
}
use ot_collector.Float.{tenth, sample_to_keep_every, trunc_reciprocal, nearest_quotient}
use ot_collector.GoText.{replace_byte, trim_space, to_lower, to_upper, join}
use ot_collector.Event.{Event, tag, tag?}
use ot_collector.Config.Rules.{RuleConfig}
use ot_collector.Config.Store
use ot_collector.Config.Store.{Store}
use ot_collector.Filter.{
  Engine, apply_rules, evaluate, fire, limit_rate, rate_count, suppress_duplicate, act, act_as,
  action_of,
}
use ot_collector.Filter.Match.{
  match_field, comparable_value, match_tag, matches, message_contains, operation_for, dedup_key,
  rate_key, rule_show_in_ui,
}
use ot_collector.Filter.FirstMatch.{first_match}
use ot_collector.Storage

abbrev pub pump : Event
pump = record {
  id = "e1";
  timestamp = "t0";
  received_at = "t1";
  zone = "OT";
  source_type = "plc";
  asset_name = "plc1";
  asset_ip = "10.0.0.1";
  severity = "info";
  protocol = "syslog";
  event_category = "network";
  message = "pump on";
  raw = "";
  tags = some [];
}

-- A rule with a rate limit of 2 and a window of 10 seconds.
abbrev pub noisy : RuleConfig
noisy = record {
  id = "r1";
  enabled = true;
  source_type = "*";
  asset = "*";
  category = "*";
  severity = "*";
  operation = "*";
  event_type = "*";
  message_contains = "";
  tag_key = "";
  tag_value = "";
  action = "store_only";
  sample_rate = tenth;
  forward_to_dmz = false;
  store_locally = true;
  show_in_ui = some true;
  dedup_window_seconds = pos 10;
  rate_limit_per_second = pos 2;
  notes = "";
}

-- A rule that keeps an event and neither stores nor forwards it.
abbrev pub losing : RuleConfig
losing = record noisy {
  action = "keep";
  store_locally = false;
  dedup_window_seconds = pos 0;
  rate_limit_per_second = pos 0;
}

abbrev pub engine_of : RuleConfig → Engine
engine_of r = record { rules = r ∷ []; dedup_cache = []; rate_by_source = []; sample_counts = [] }

abbrev is_a : List ℕ → Bool
is_a (b ∷ c ∷ d ∷ []) = b == 123 && c == 65 && d == 125
is_a _ = false

-- A codec that knows one event, written as {A}.
abbrev pub letter : Storage.Codec
letter = record {
  marshal = λ (e : Event). some (123 ∷ 65 ∷ 125 ∷ []);
  unmarshal = λ (bs : List ℕ). if is_a bs then some pump else none;
}

-- A codec that knows one list of rules.
abbrev pub one_list : List RuleConfig → Store.Codec RuleConfig
one_list xs = record {
  encode = λ (ys : List RuleConfig). some "[]";
  decode = λ (b : String). some xs;
}

abbrev pub no_rules : Store RuleConfig
no_rules = record { items = []; file = none }

-- What the runs of the rule engine compute.
unfoldable pub engine_runs : Unit {0}
unfolding first_match matches evaluate fire match_field comparable_value replace_byte trim_space
    to_lower to_upper join match_tag message_contains operation_for dedup_key rate_key
    rule_show_in_ui tag tag? apply_rules limit_rate rate_count lookup insert suppress_duplicate act
    act_as action_of count_of bump sample_to_keep_every trunc_reciprocal nearest_quotient
engine_runs = tt
