-- ===== src/Tests/Collector.antt =====
-- Runs of the processor and of the handlers.
use ot_collector.Prelude.{
  ℕ, ◌+◌, ◌≡◌, refl, ◌⊎◌, inr, String, true, false, none, some, List, [], ◌∷◌, pos, arith,
}
use ot_collector.Event.{Event, make_tags, or_default}
use ot_collector.Config.Store.{Store, Error, written, broken}
use ot_collector.Config.Rules.{RuleConfig, sanitize_rules}
use ot_collector.Config.Forwarding.{ForwardingConfig, ConfigCodec, zero_config}
use ot_collector.Forwarder.Queue.{new_queue}
use ot_collector.Forwarder.Queue.Process.{
  ForwardResult, Forwarder, Reply, response, is_enabled, is_stale, process, send_with_status,
}
use ot_collector.Stats.{new_stats}
use ot_collector.Storage.{works}
use ot_collector.Stream.{new_hub}
use ot_collector.Processor.{
  Processor, World, baseline, decide_event, ingest, handle_forward_result, rule_test, current_rules,
}
use ot_collector.Processor.Labels.{normalize_source_type}
use ot_collector.Processor.Ingest.{decision, forwards, enriched, Outcome, ingest-Outcome}
use ot_collector.Processor.Results.{
  Arrival, handle_all, attempts, IsInStep, handle_all-IsInStep, unsent_is_success,
}
use ot_collector.Processor.RuleTest.{tested, rule_test_suppresses}
use ot_collector.Api.{Api, Posted, put, post, handle_config_rules, handle_config_rule_by_id}
use ot_collector.Api.RuleChanges.{IsInForce, IsRefused, change_by_id, post_unsanitized}
use ot_collector.Tests.{pump, noisy, losing, engine_of, letter, one_list, no_rules, engine_runs}

abbrev pub minute : String → String
minute t = "m"

abbrev pub world : World
world = record {
  now_text = "t2";
  new_id = "e9";
  evaluated_at = 5;
  counted_at = 6;
  enqueued_at = 7;
  disk = works;
}

abbrev pub processor : RuleConfig → Processor
processor r = record {
  zone = "OT";
  file = [];
  forwarder = record { url = "http://dmz"; timeout_secs = 10 };
  forward_queue = some (new_queue (pos 2));
  stats = new_stats;
  filter_engine = engine_of r;
  stream_hub = new_hub;
  forwarding = record { config = record zero_config { enabled = true }; file = none };
  forward_timeout = pos 10;
}

ingest-Outcome_example :
    Outcome letter world
      (enriched world pump "udp" (processor noisy))
      "udp"
      (decision world pump "udp" (processor noisy))
      (forwards world pump "udp" (processor noisy))
      (record (processor noisy) { filter_engine = (decide_event world pump (processor noisy)).0 })
      (ingest letter minute world pump "udp" (processor noisy))
ingest-Outcome_example = ingest-Outcome letter minute world pump "udp" (processor noisy)

-- A rule that only forwards, and a collector with forwarding disabled.
abbrev sending_only : RuleConfig
sending_only = record losing { action = "Forward_Only" }

abbrev offline : Processor
offline = record (processor sending_only) {
  forwarding = record { config = zero_config; file = none };
}

rule_test_suppresses_example :
    ((ingest letter minute world pump "udp" (rule_test pump 1 (processor noisy)).0).file ≡ [])
    × ((ingest letter minute world pump "udp" (rule_test pump 1 (processor noisy)).0).stream_hub
        ≡ new_hub)
    × ((ingest letter minute world pump "udp" (rule_test pump 1 (processor noisy)).0).forward_queue
        ≡ some (new_queue (pos 2)))
unfolding engine_runs tested rule_test baseline make_tags or_default normalize_source_type
rule_test_suppresses_example =
    rule_test_suppresses letter minute world pump 1 "udp" noisy (processor noisy) refl refl refl
      refl (omega arith) (omega arith) (omega arith) (omega arith) refl

abbrev pub settings : ConfigCodec
settings = record {
  encode = λ (c : ForwardingConfig). some "{}";
  decode = λ (b : String) (c : ForwardingConfig). some c;
}

abbrev refused : ForwardResult
refused = record {
  event_id = "e1";
  ingestion_path = "udp";
  skipped = false;
  skip_reason = "";
  elapsed_ms = 3;
  http_status = 503;
  err = some "503";
}

abbrev arrivals : List Arrival
arrivals =
    record { disk = written; at = "t3"; result = refused }
    ∷ record { disk = broken none; at = "t4"; result = record refused { err = none } }
    ∷ []

handle_all-IsInStep_example :
    IsInStep (processor noisy) (handle_all settings arrivals (processor noisy)) (attempts arrivals)
handle_all-IsInStep_example = handle_all-IsInStep settings arrivals (processor noisy)

abbrev off : Forwarder
off = record { url = ""; timeout_secs = 10 }

abbrev body_of : Event → String ⊎ String
body_of e = inr "body"

abbrev accepts : String → String → Reply
accepts url body = response 202

unsent_is_success_example :
    (handle_forward_result settings written "t3"
      (process
        (pos 30)
        9
        9
        9
        (send_with_status (λ (n : ℕ). "") body_of accepts off)
        (record { evt = pump; ingestion_path = "udp"; enqueued_at = 7 }))
      (processor noisy)).stats.forwarded_count
    ≡ new_stats.forwarded_count + 1
unfolding is_enabled is_stale
unsent_is_success_example =
    unsent_is_success settings written "t3" (λ (n : ℕ). "") body_of accepts off (pos 30) 9 9 9
      (record { evt = pump; ingestion_path = "udp"; enqueued_at = 7 }) (processor noisy) refl refl

abbrev api : Api
api = record {
  zone = "OT";
  processor = processor noisy;
  rule_store = no_rules;
  source_store = record { items = []; file = none };
  known_sources = [];
  dmz_enabled = true;
  udp_port = pos 514;
  tcp_port = pos 514;
  api_port = pos 8088;
  events_file = "/data/events.jsonl";
}

change_by_id_example :
    ((handle_config_rule_by_id (one_list []) written "/config/rules/r1" put (some losing) api).1
        ≡ 200)
      × IsInForce
          (handle_config_rule_by_id
            (one_list [])
            written
            "/config/rules/r1"
            put
            (some losing)
            api).0
    ⊎ IsRefused api
        (handle_config_rule_by_id (one_list []) written "/config/rules/r1" put (some losing) api)
change_by_id_example = change_by_id (one_list []) written "/config/rules/r1" put (some losing) api

abbrev actionless : List RuleConfig
actionless = record losing { action = "" } ∷ []

post_unsanitized_example :
    ((handle_config_rules (one_list []) written post (some actionless) api).0.rule_store.items
      ≡ sanitize_rules actionless)
    × (current_rules
          (handle_config_rules (one_list []) written post (some actionless) api).0.processor
        ≡ actionless)
unfolding handle_config_rules ot_collector.Config.Store.persist
    ot_collector.Config.Rules.replace_rules
post_unsanitized_example = post_unsanitized (one_list []) written actionless api refl

abbrev nameless : Posted
nameless = record { evt = record pump { id = "" }; now = "t5"; new_id = "e7"; world = world }
