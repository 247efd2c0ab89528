-- ===== src/Processor.antt =====
-- The processor of cmd/ot-collector/main.go, through which every event goes: a call of a method is
-- a function from its state to the next. The queue's workers run beside it (Forwarder.Queue.Steps).
-- What the world answers in one call of ingest (clocks, the new id, the disk) is a record.
pub mod Labels
pub mod Storing
pub mod Ingest
pub mod ForwardOnly
pub mod Raw
pub mod Results
pub mod RuleTest
pub mod Unfound
pub mod Settings
use ot_collector.Prelude.{
  ℕ, String, Bool, true, false, ◌&&◌, not, Option, none, some, List, [], ◌∷◌, ℤ, str_eq,
  if◌then◌else◌,
}
use ot_collector.GoText.{to_lower, trim_space, replace_byte}
use ot_collector.Event.{Event, make_tags, set_tag, or_default}
use ot_collector.Config.Rules.{RuleConfig}
use ot_collector.Config.Store.{Write, Error}
use ot_collector.Config.Forwarding.{
  ForwardingConfig, ForwardingStore, ConfigCodec, replace_config, update_forward_result,
}
use ot_collector.Filter.{Engine, Decision, set_rules, evaluate, unix}
use ot_collector.Forwarder.Queue
use ot_collector.Forwarder.Queue.{Queue, Task, enqueue, drain}
use ot_collector.Forwarder.Queue.Process.{ForwardResult, Forwarder, new_forwarder, is_enabled}
use ot_collector.Storage
use ot_collector.Storage.{Disk, append}
use ot_collector.Stats.{Stats, add_stored, add_decision, add_dropped, add_forward_result}
use ot_collector.Stream.{StreamHub, publish}
use Labels.{
  normalize_source_type, siem_index_hint, splunk_sourcetype, decision_label, decision_hint,
}

-- A file that is missing is an empty one here: Append creates it.
pub record Processor : Type 0 where
  pub zone : String
  pub file : List ℕ
  pub forwarder : Forwarder
  pub forward_queue : Option Queue
  pub stats : Stats
  pub filter_engine : Engine
  pub stream_hub : StreamHub
  pub forwarding : ForwardingStore
  pub forward_timeout : ℤ

-- What one call of ingest gets from outside: the text of the current time, an id, the nanoseconds
-- at which the rules are evaluated, an event is counted and a task is enqueued, and the disk.
pub record World : Type 0 where
  pub now_text : String
  pub new_id : String
  pub evaluated_at : ℕ
  pub counted_at : ℕ
  pub enqueued_at : ℕ
  pub disk : Disk

-- Steps 1 and 2 of ingest: the defaults, and the canonical source type.
unfoldable pub baseline : World → String → Event → Event
baseline w zone evt =
    let received = or_default evt.received_at w.now_text in
    make_tags (record evt {
      id = or_default evt.id w.new_id;
      received_at = received;
      timestamp = or_default evt.timestamp received;
      zone = or_default evt.zone zone;
      protocol = or_default evt.protocol "json";
      source_type = normalize_source_type evt.source_type;
    })

-- Step 3: the decision, and the engine after it.
unfoldable pub decide_event : World → Event → Processor → Engine × Decision
decide_event w evt p = evaluate p.filter_engine (some (baseline w p.zone evt)) w.evaluated_at

-- Step 4: whether the event is forwarded.
unfoldable pub will_forward : Decision → Processor → Bool
will_forward d p =
    if d.drop then false else d.forward && (p.forwarding.config.enabled && is_enabled p.forwarder)

abbrev pub set_tag_if : Bool → String → String → Event → Event
set_tag_if b k v e = if b then set_tag k v e else e

-- Step 5: the tags.
unfoldable pub enrich : String → Decision → Bool → Event → Event
enrich ingestion_path d forwards evt = set_tag_if forwards "forwarding_status" "queued" (
    set_tag_if (not (str_eq d.matched_rule_id "")) "matched_rule_id" d.matched_rule_id (
      set_tag "splunk_sourcetype" (splunk_sourcetype evt.source_type) (
        set_tag "siem_index_hint" (siem_index_hint evt.source_type) (
          set_tag "decision_reason" d.reason (
            set_tag "collector_decision_hint" (decision_hint d) (
              set_tag "collector_decision" (decision_label d forwards)
                (set_tag "ingestion_path" ingestion_path evt)))))))

abbrev publish_if : Bool → Event → Processor → Processor
publish_if b evt p = if b then record p { stream_hub = publish evt p.stream_hub } else p

-- parseMinuteBucket is a parameter: it parses and prints times.
module _ (codec : Storage.Codec) (minute_of : String → String) where
  -- Step 7: an event that is dropped, stored all the same if the decision says so.
  unfoldable pub drop_event : World → Event → Decision → Processor → Processor
  drop_event w evt d p =
      let count = λ (q : Processor). record q {
        stats = add_dropped (unix w.counted_at) d.matched_rule_id d.reason d.sampled q.stats;
      } in
      if d.store
      then (let (file, err) = append codec w.disk evt p.file in
          let q = record p { file = file } in
          elim err [ some e ↦ count q | none ↦ count (publish_if d.show evt q) ])
      else count p

  -- Step 8: an event that is kept is stored, counted and shown.
  unfoldable pub store_event : World → Event → Decision → Processor → Processor
  store_event w evt d p =
      if d.store
      then (let (file, err) = append codec w.disk evt p.file in
          let q = record p { file = file } in
          elim err [
            | some e ↦ q
            | none ↦ publish_if d.show evt (record q {
              stats = add_stored (unix w.counted_at) (minute_of evt.received_at) evt q.stats;
            })
          ])
      else p

  -- Step 9: an event that is forwarded waits in the queue, if there is a queue with room.
  unfoldable pub enqueue_event : World → Event → String → Bool → Processor → Processor
  enqueue_event w evt ingestion_path forwards p =
      if forwards
      then (elim p.forward_queue [
        | none ↦ p
        | some fq ↦ record p {
          forward_queue =
              some
                (enqueue
                  (record {
                    evt = evt;
                    ingestion_path = ingestion_path;
                    enqueued_at = w.enqueued_at;
                  })
                  fq).0;
        }
      ])
      else p

  -- Steps 8 and 9, after the decision is counted.
  unfoldable pub keep_event : World → Event → String → Decision → Bool → Processor → Processor
  keep_event w evt ingestion_path d forwards p = enqueue_event w evt ingestion_path forwards (
      store_event w evt d (record p {
        stats = add_decision (decision_label d forwards) d.matched_rule_id d.sampled p.stats;
      }))

  -- ingest
  unfoldable pub ingest : World → Event → String → Processor → Processor
  ingest w evt ingestion_path p =
      let (engine, d) = decide_event w evt p in
      let forwards = will_forward d p in
      let e = enrich ingestion_path d forwards (baseline w p.zone evt) in
      let q = record p { filter_engine = engine } in
      if d.drop then drop_event w e d q else keep_event w e ingestion_path d forwards q

  -- ProcessNormalized
  unfoldable pub process_normalized : World → Event → Processor → Processor
  process_normalized w evt p = ingest w evt "api" p

  -- ProcessTestEvent
  unfoldable pub process_test_event : World → Event → Processor → Processor
  process_test_event w evt p = ingest w evt "api_test_event" p

-- handleForwardResult, at the time `ts`
unfoldable pub handle_forward_result :
    ConfigCodec → Write → String → ForwardResult → Processor → Processor
handle_forward_result codec disk ts r p = if r.skipped then p else (elim r.err [
  | some e ↦ record p {
    stats = add_forward_result false "" p.stats;
    forwarding = (update_forward_result codec disk false ts e r.event_id p.forwarding).0;
  }
  | none ↦ record p {
    stats = add_forward_result true ts p.stats;
    forwarding = (update_forward_result codec disk true ts "" r.event_id p.forwarding).0;
  }
])

-- CurrentRules
unfoldable pub current_rules : Processor → List RuleConfig
current_rules p = p.filter_engine.rules

-- SetRules
unfoldable pub set_rules_of : List RuleConfig → Processor → Processor
set_rules_of rules p = record p { filter_engine = set_rules rules p.filter_engine }

-- RuleTest, at the time `now`
unfoldable pub rule_test : Event → ℕ → Processor → Processor × Decision
rule_test evt now p =
    let (engine, d) =
      evaluate p.filter_engine
        (some (record evt { source_type = normalize_source_type evt.source_type })) now in
    (record p { filter_engine = engine }, d)

-- UpdateForwardingConfig
unfoldable pub update_forwarding_config :
    ConfigCodec → Write → ForwardingConfig → Processor → Processor × Option Error
update_forwarding_config codec disk cfg p =
    let (forwarding, err) = replace_config codec disk cfg p.forwarding in
    let q = record p { forwarding = forwarding } in
    elim err [
      | some e ↦ (q, some e)
      | none ↦
          (record q { forwarder = new_forwarder cfg.dmz_collector_url p.forward_timeout }, none)
    ]

-- ResetForwardQueue
unfoldable pub reset_forward_queue : Processor → Processor × ℕ
reset_forward_queue p = elim p.forward_queue [
  | none ↦ (p, 0)
  | some fq ↦ let (fq', n) = drain fq in (record p { forward_queue = some fq' }, n)
]
