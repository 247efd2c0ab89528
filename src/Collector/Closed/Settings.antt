-- ===== src/Collector/Closed/Settings.antt =====
-- The handlers that change the forwarding settings, the queue and the file, and the rules test.
use ot_collector.Prelude.{ℕ, Option, none, some, List, Option-cases, inl, inr}
use ot_collector.Event.{Event}
use ot_collector.Config.Forwarding.{ForwardingConfig}
use ot_collector.Storage.Faults.{repair_on}
use ot_collector.Processor.{Processor, process_normalized, update_forwarding_config}
use ot_collector.Api.{
  Api, Method, get, post, put, delete, other_method, handle_config_forwarding,
  handle_forwarding_reset_queue,
}
use ot_collector.Api.Events.{
  handle_forwarding_test_pipeline, handle_storage_repair, handle_config_rules_test,
}
use ot_collector.Api.Server.{Formats, Turn}
use ot_collector.Collector.Closed.{IsClosed}

module _ (f : Formats) (P : Processor → Type 0) (closed : IsClosed f P) where
  module _ (t : Turn) where
    pub settings_closed :
        (m : Method) (body : Option ForwardingConfig) (a : Api)
        → P a.processor
        → P (handle_config_forwarding f.forwarding t.write m body a).0.processor
    unfolding handle_config_forwarding
    settings_closed post none a h = h
    settings_closed post (some cfg) a h =
        elim (Option-cases (update_forwarding_config f.forwarding t.write cfg a.processor).1) [
          | inl e ↦ rw (handle_config_forwarding, e) (closed.configured t.write cfg a.processor h)
          | inr (x, e) ↦
              rw (handle_config_forwarding, e) (closed.configured t.write cfg a.processor h)
        ]
    settings_closed get body a h = h
    settings_closed put body a h = h
    settings_closed delete body a h = h
    settings_closed other_method body a h = h

    pub reset_closed :
        (m : Method) (a : Api) → P a.processor → P (handle_forwarding_reset_queue m a).0.processor
    unfolding handle_forwarding_reset_queue
    reset_closed post a h = closed.emptied a.processor h
    reset_closed get a h = h
    reset_closed put a h = h
    reset_closed delete a h = h
    reset_closed other_method a h = h

    pub pipeline_closed :
        (m : Method) (a : Api)
        → P a.processor
        → P
            (handle_forwarding_test_pipeline f.storage f.minute_of m t.world t.now_text t.nanos
              a).0.processor
    unfolding handle_forwarding_test_pipeline process_normalized
    pipeline_closed post a h = closed.ingested t.world _ "api" a.processor h
    pipeline_closed get a h = h
    pipeline_closed put a h = h
    pipeline_closed delete a h = h
    pipeline_closed other_method a h = h

    pub rules_test_closed :
        (m : Method) (body : Option Event) (a : Api)
        → P a.processor
        → P (handle_config_rules_test m body t.now a).0.processor
    unfolding handle_config_rules_test
    rules_test_closed post none a h = h
    rules_test_closed post (some e) a h = closed.tested e t.now a.processor h
    rules_test_closed get body a h = h
    rules_test_closed put body a h = h
    rules_test_closed delete body a h = h
    rules_test_closed other_method body a h = h

    pub repair_closed :
        (m : Method) (a : Api)
        → ((file : List ℕ) (p : Processor) → P p → P (record p { file = file }))
        → P a.processor
        → P (handle_storage_repair f.storage t.faults m a).0.processor
    unfolding handle_storage_repair
    repair_closed post a kept h =
        elim (Option-cases (repair_on f.storage t.faults (some a.processor.file)).2) [
          | inr (x, e) ↦ rw (handle_storage_repair, e) h
          | inl e ↦ elim (Option-cases (repair_on f.storage t.faults (some a.processor.file)).0) [
            | inl gone ↦ rw (handle_storage_repair, e, gone) h
            | inr (file, there) ↦ rw (handle_storage_repair, e, there) (kept file a.processor h)
          ]
        ]
    repair_closed get a kept h = h
    repair_closed put a kept h = h
    repair_closed delete a kept h = h
    repair_closed other_method a kept h = h
