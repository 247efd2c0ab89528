-- ===== src/Collector/Closed.antt =====
-- A property of the processor that each of its methods keeps, and every change that a handler, a
-- stream or a worker makes, holds all through a run.
pub mod Posts
pub mod Items
pub mod Settings
use ot_collector.Prelude.{
  ℕ, ◌≡◌, refl, String, Bool, true, false, Option, none, some, List, [], ◌∷◌, str_eq, if◌then◌else◌,
  Bool-cases, Option-cases, inl, inr, ltb, length, All,
}
use ot_collector.GoText.{trim_space, trim_prefix}
use ot_collector.Event.{Event, or_default}
use ot_collector.Config.Store.{Write}
use ot_collector.Config.Rules.{RuleConfig, upsert_rule, delete_rule, replace_rules}
use ot_collector.Config.Sources.{SourceConfig, upsert_source, delete_source, replace_sources}
use ot_collector.Config.Forwarding.{ForwardingConfig}
use ot_collector.Forwarder.Queue.{Task, Queue}
use ot_collector.Forwarder.Queue.Process.{ForwardResult}
use ot_collector.Storage
use ot_collector.Stream.{StreamHub, subscribe, unsubscribe}
use ot_collector.Processor.{
  Processor, World, ingest, process_normalized, process_test_event, handle_forward_result,
  set_rules_of, rule_test, update_forwarding_config, reset_forward_queue,
}
use ot_collector.Processor.Raw.{Inputs, process_raw}
use ot_collector.Api.{
  Api, Method, get, post, put, delete, other_method, Posted, post_events, change_rule,
  change_source, handle_config_rules, handle_config_rule_by_id, handle_config_sources,
  handle_config_source_by_id, handle_config_forwarding, handle_forwarding_reset_queue,
}
use ot_collector.Api.Events.{
  Wrapped, handle_post_events, handle_test_event, accept_raw, accept_event,
  handle_forwarding_test_pipeline, handle_storage_repair, handle_config_rules_test, batch_of,
  flat_event, posted,
}
use ot_collector.Api.Routes.{
  Route, events, event_stream, storage_repair, config_sources, config_source_by_id, config_rules,
  config_rule_by_id, config_rules_test, config_forwarding, forwarding_test_pipeline,
  forwarding_reset_queue, test_event, route,
}
use ot_collector.Api.Server.{
  Request, Formats, Turn, handle_events, serve_route, serve, open_stream, close_stream,
  stream_event, receive_first,
}
use ot_collector.Collector.{
  Collector, Happening, arrives, takes_line, requested, streams, leaves, takes_task, finishes,
  take_task, happen, run,
}

pub record IsClosed (f : Formats) (P : Processor → Type 0) : Type 0 where
  pub ingested :
      (w : World) (e : Event) (path : String) (p : Processor)
      → P p
      → P (ingest f.storage f.minute_of w e path p)
  pub handled :
      (disk : Write) (at : String) (r : ForwardResult) (p : Processor)
      → P p
      → P (handle_forward_result f.forwarding disk at r p)
  pub ruled : (rules : List RuleConfig) (p : Processor) → P p → P (set_rules_of rules p)
  pub tested : (e : Event) (now : ℕ) (p : Processor) → P p → P (rule_test e now p).0
  pub configured :
      (disk : Write) (cfg : ForwardingConfig) (p : Processor)
      → P p
      → P (update_forwarding_config f.forwarding disk cfg p).0
  pub emptied : (p : Processor) → P p → P (reset_forward_queue p).0
  pub joined : (p : Processor) → P p → P (record p { stream_hub = (subscribe p.stream_hub).0 })
  pub left :
      (id : ℕ) (p : Processor) → P p → P (record p { stream_hub = unsubscribe id p.stream_hub })
  pub received :
      (id : ℕ) (p : Processor)
      → P p
      → P (record p {
        stream_hub = record p.stream_hub { clients = receive_first id p.stream_hub.clients };
      })
  pub taken :
      (busy : List Task) (q : Queue) (p : Processor)
      → p.forward_queue ≡ some q
      → P p
      → P (record p { forward_queue = some (take_task busy q).0 })
