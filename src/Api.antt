-- ===== src/Api.antt =====
-- The handlers of internal/api/handlers.go that change the collector's state. A handler is a
-- function from the state to the next and the status of its answer. What the JSON decoder makes of
-- a body is an argument, none when it refuses it.
pub mod Events
pub mod RuleChanges
pub mod Posts
pub mod Routes
pub mod Server
pub mod Shown
pub mod Health
pub mod ForwardingTest
use ot_collector.Prelude.{
  Bool, ℕ, String, Option, none, some, List, [], ◌∷◌, str_eq, if◌then◌else◌, ℤ, is_pos, pos_part,
  Dict,
}
use ot_collector.GoText.{trim_prefix}
use ot_collector.Event.{Event, or_default, make_tags}
use ot_collector.Config.Store
use ot_collector.Config.Store.{Store, Write, Error}
use ot_collector.Config.Rules.{RuleConfig, replace_rules, upsert_rule, delete_rule}
use ot_collector.Config.Sources.{SourceConfig, replace_sources, upsert_source, delete_source}
use ot_collector.Config.Forwarding.{ForwardingConfig, ConfigCodec}
use ot_collector.Processor.{
  Processor, World, set_rules_of, current_rules, process_normalized, update_forwarding_config,
  reset_forward_queue,
}
use ot_collector.Sources.{SourceInfo, known_from}
use ot_collector.Storage

pub record Api : Type 0 where
  pub zone : String
  pub processor : Processor
  pub rule_store : Store RuleConfig
  pub source_store : Store SourceConfig
  pub known_sources : Dict SourceInfo
  pub dmz_enabled : Bool
  pub udp_port : ℤ
  pub tcp_port : ℤ
  pub api_port : ℤ
  pub events_file : String

pub data Method : Type 0 where
  get post put delete other_method : Method

module _ (codec : Store.Codec RuleConfig) (w : Write) where
  -- handleConfigRules
  unfoldable pub handle_config_rules : Method → Option (List RuleConfig) → Api → Api × ℕ
  handle_config_rules get body a = (a, 200)
  handle_config_rules post none a = (a, 400)
  handle_config_rules post (some all) a =
      let (s, err) = replace_rules codec w all a.rule_store in
      let b = record a { rule_store = s } in
      elim err [
        | some e ↦ (b, 500)
        | none ↦ (record b { processor = set_rules_of all b.processor }, 200)
      ]
  handle_config_rules _ body a = (a, 405)

  -- What follows Upsert and Delete: the processor gets the store's rules.
  abbrev after_rule_change : Store RuleConfig × Option Error → Api → Api × ℕ
  after_rule_change (s, err) a =
      let b = record a { rule_store = s } in
      elim err [
        | some e ↦ (b, 500)
        | none ↦ (record b { processor = set_rules_of s.items b.processor }, 200)
      ]

  unfoldable pub change_rule : String → Method → Option RuleConfig → Api → Api × ℕ
  change_rule id put none a = (a, 400)
  change_rule id put (some one) a =
      after_rule_change (upsert_rule codec w (record one { id = id }) a.rule_store) a
  change_rule id delete body a = after_rule_change (delete_rule codec w id a.rule_store) a
  change_rule id _ body a = (a, 405)

  -- handleConfigRuleByID, at the path of the request
  unfoldable pub handle_config_rule_by_id : String → Method → Option RuleConfig → Api → Api × ℕ
  handle_config_rule_by_id path method body a =
      let id = trim_prefix path "/config/rules/" in
      if str_eq id "" then (a, 400) else change_rule id method body a

module _ (codec : Store.Codec SourceConfig) (w : Write) where
  -- handleConfigSources; known_from is sourcesKnownFromConfig as well
  unfoldable pub handle_config_sources : Method → Option (List SourceConfig) → Api → Api × ℕ
  handle_config_sources get body a = (a, 200)
  handle_config_sources post none a = (a, 400)
  handle_config_sources post (some all) a =
      let (s, err) = replace_sources codec w all a.source_store in
      let b = record a { source_store = s } in
      elim err [ some e ↦ (b, 500) | none ↦ (record b { known_sources = known_from all [] }, 200) ]
  handle_config_sources _ body a = (a, 405)

  abbrev after_source_change : Store SourceConfig × Option Error → Api → Api × ℕ
  after_source_change (s, err) a =
      let b = record a { source_store = s } in
      elim err [
        | some e ↦ (b, 500)
        | none ↦ (record b { known_sources = known_from s.items [] }, 200)
      ]

  unfoldable pub change_source : String → Method → Option SourceConfig → Api → Api × ℕ
  change_source id put none a = (a, 400)
  change_source id put (some one) a =
      after_source_change (upsert_source codec w (record one { id = id }) a.source_store) a
  change_source id delete body a = after_source_change (delete_source codec w id a.source_store) a
  change_source id _ body a = (a, 405)

  -- handleConfigSourceByID
  unfoldable pub handle_config_source_by_id : String → Method → Option SourceConfig → Api → Api × ℕ
  handle_config_source_by_id path method body a =
      let id = trim_prefix path "/config/sources/" in
      if str_eq id "" then (a, 400) else change_source id method body a

-- handleConfigForwarding
unfoldable pub handle_config_forwarding :
    ConfigCodec → Write → Method → Option ForwardingConfig → Api → Api × ℕ
handle_config_forwarding codec w get body a = (a, 200)
handle_config_forwarding codec w post none a = (a, 400)
handle_config_forwarding codec w post (some cfg) a =
    let (p, err) = update_forwarding_config codec w cfg a.processor in
    let b = record a { processor = p } in elim err [ some e ↦ (b, 500) | none ↦ (b, 200) ]
handle_config_forwarding codec w _ body a = (a, 405)

-- handleForwardingResetQueue, with the count that it answers
unfoldable pub handle_forwarding_reset_queue : Method → Api → Api × ℕ × ℕ
handle_forwarding_reset_queue post a =
    let (p, drained) = reset_forward_queue a.processor in (record a { processor = p }, 200, drained)
handle_forwarding_reset_queue _ a = (a, 405, 0)

-- normalizePostedEvent, with the time and the id that it may give
unfoldable pub normalize_posted_event : String → String → String → Event → Event
normalize_posted_event now new_id zone evt = make_tags (record evt {
  id = or_default evt.id new_id;
  timestamp = or_default evt.timestamp now;
  received_at = or_default evt.received_at now;
  zone = or_default evt.zone zone;
  protocol = or_default evt.protocol "json";
  source_type = or_default evt.source_type "unknown";
  asset_name = or_default evt.asset_name "unknown";
  severity = or_default evt.severity "info";
  event_category = or_default evt.event_category "system";
})

-- fillTestEventDefaults
unfoldable pub fill_test_event_defaults : String → String → Event → Event
fill_test_event_defaults new_id zone evt = make_tags (record evt {
  id = or_default evt.id new_id;
  zone = or_default evt.zone zone;
  protocol = or_default evt.protocol "json";
})

-- One event of a batch, with the time and the id of normalizePostedEvent and what ingest gets.
pub record Posted : Type 0 where
  pub evt : Event
  pub now : String
  pub new_id : String
  pub world : World

-- The loop of handlePostEvents: the state, and the ids of the answer.
unfoldable pub post_events :
    Storage.Codec → (String → String) → List Posted → Api → Api × List String
post_events codec minute_of [] a = (a, [])
post_events codec minute_of (x ∷ xs) a =
    let evt = normalize_posted_event x.now x.new_id a.zone x.evt in
    let b = record a { processor = process_normalized codec minute_of x.world evt a.processor } in
    let (c, ids) = post_events codec minute_of xs b in (c, evt.id ∷ ids)

-- parsePositiveInt, from what strconv.Atoi makes of a text
unfoldable pub parse_positive_int : (String → Option ℤ) → String → ℕ → ℕ
parse_positive_int atoi raw fallback =
    if str_eq raw ""
    then fallback
    else (elim (atoi raw) [ none ↦ fallback | some v ↦ if is_pos v then pos_part v else fallback ])
