-- ===== src/Api/Events.antt =====
-- The handlers of internal/api/handlers.go through which events come and go: /events, /test-event,
-- /storage/repair, /config/rules/test and /forwarding/test-pipeline. A body is what ReadAll makes of
-- it, none when that fails; what json.Unmarshal makes of it is a parameter.
pub mod Answers
use Prim.Native.String
use ot_collector.Prelude.{
  suc, ℕ, String, Bool, true, ◌&&◌, ◌||◌, not, Option, none, some, List, [], ◌∷◌, ℤ, pos, Dict,
  str_eq, if◌then◌else◌, length, get_or_empty,
}
use ot_collector.GoText.{trim_space, has_prefix}
use ot_collector.Event.{Event, or_default}
use ot_collector.Storage
use ot_collector.Storage.{RepairReport}
use ot_collector.Storage.Faults.{ReadFault, RepairFaults, read_filtered_on, repair_on}
use ot_collector.Storage.Query.{EventQuery}
use ot_collector.Filter.{Decision}
use ot_collector.Processor.{Processor, World, process_normalized, process_test_event, rule_test}
use ot_collector.Processor.Raw.{Inputs, process_raw}
use ot_collector.Api.{
  Api, Method, get, post, Posted, post_events, fill_test_event_defaults, parse_positive_int,
}

-- The query of handleEvents, from the parameters of the URL.
unfoldable pub query_of : (String → Option ℤ) → Dict String → EventQuery
query_of atoi url = record {
  limit = pos (parse_positive_int atoi (get_or_empty "limit" url) 100);
  source_type = trim_space (get_or_empty "source_type" url);
  severity = trim_space (get_or_empty "severity" url);
  category = trim_space (get_or_empty "category" url);
  asset_ip = trim_space (get_or_empty "asset_ip" url);
  search = trim_space (get_or_empty "search" url);
}

-- The events that GET /events answers, none when the file cannot be read.
unfoldable pub get_events :
    Storage.Codec → (String → Option ℤ) → ReadFault → Dict String → Api → Option (List Event)
get_events codec atoi fault url a =
    read_filtered_on codec fault (query_of atoi url) (some a.processor.file)

-- What json.Unmarshal makes of a body: an array of events, an event, or the wrapper of /test-event,
-- whose error is ignored.
pub record Wrapped : Type 0 where
  pub raw : String
  pub source_ip : String
  pub event : Option Event

pub record Bodies : Type 0 where
  pub array : String → Option (List Event)
  pub object : String → Option Event
  pub wrapped : String → Wrapped

-- The batch of handlePostEvents.
unfoldable pub batch_of : Bodies → String → Option (List Event)
batch_of json body =
    if has_prefix body "["
    then json.array body
    else (elim (json.object body) [ none ↦ none | some evt ↦ some (evt ∷ []) ])

-- Each event of a batch with what the n-th call of the pipeline gets from outside.
unfoldable pub posted : (ℕ → Event → Posted) → ℕ → List Event → List Posted
posted outside n [] = []
posted outside n (e ∷ es) = record (outside n e) { evt = e } ∷ posted outside (suc n) es

-- The event of attempt 2 of handleTestEvent.
unfoldable pub flat_event : Bodies → String → Option Event
flat_event json body = elim (json.object body) [
  | none ↦ none
  | some evt ↦
      if has_prefix body "{"
        && (not (str_eq evt.id "")
            || (not (str_eq evt.source_type "") || not (str_eq evt.message "")))
      then some evt
      else none
]

module _ (codec : Storage.Codec) (minute_of : String → String) (w : World) where
  -- The pipeline for an event that is posted, and the answer.
  unfoldable pub accept_event : String → Event → Api → Api × ℕ
  accept_event new_id evt a = (
    record a {
      processor =
          process_test_event codec minute_of w (fill_test_event_defaults new_id a.zone evt)
            a.processor;
    },
    202,
  )

  -- Attempt 3 of handleTestEvent.
  unfoldable pub accept_raw : Inputs → Wrapped → String → Api → Api × ℕ
  accept_raw go wrapped body a =
      let raw = or_default (trim_space wrapped.raw) (trim_space body) in
      let src = or_default (trim_space wrapped.source_ip) "127.0.0.1" in
      if str_eq raw "" then (a, 400) else (
        record a { processor = process_raw codec minute_of w go raw src "api" a.processor },
        202,
      )

module _ (codec : Storage.Codec) (minute_of : String → String) (json : Bodies) where
  -- handlePostEvents, with the ids of its answer
  unfoldable pub handle_post_events :
      (ℕ → Event → Posted) → Option String → Api → Api × ℕ × List String
  handle_post_events outside none a = (a, 400, [])
  handle_post_events outside (some raw) a =
      let body = trim_space raw in
      if str_eq body "" then (a, 400, []) else (elim (batch_of json body) [
        | none ↦ (a, 400, [])
        | some batch ↦
            let (b, ids) = post_events codec minute_of (posted outside 0 batch) a in (b, 200, ids)
      ])

  -- handleTestEvent
  unfoldable pub handle_test_event : World → Inputs → String → Option String → Api → Api × ℕ
  handle_test_event w go new_id none a = (a, 400)
  handle_test_event w go new_id (some raw) a =
      let body = trim_space raw in
      let wrapped = json.wrapped body in
      if str_eq body "" then (a, 400) else (elim wrapped.event [
        | some evt ↦ accept_event codec minute_of w new_id evt a
        | none ↦ elim (flat_event json body) [
          | some evt ↦ accept_event codec minute_of w new_id evt a
          | none ↦ accept_raw codec minute_of w go wrapped body a
        ]
      ])

-- The event of handleForwardingTestPipeline, at a time as a text and in nanoseconds.
unfoldable pub pipeline_event : String → String → String → Event
pipeline_event now nanos zone = record {
  id = String.◌++◌ "fwdpipeline-" nanos;
  timestamp = now;
  received_at = now;
  zone = zone;
  source_type = "ot_collector";
  asset_name = "ot_collector";
  asset_ip = "";
  severity = "info";
  protocol = "json";
  event_category = "system";
  message = "forwarding pipeline test";
  raw = "";
  tags = some (("kind", "forwarding_pipeline_test") ∷ []);
}

module _ (codec : Storage.Codec) (minute_of : String → String) where
  -- handleForwardingTestPipeline
  unfoldable pub handle_forwarding_test_pipeline : Method → World → String → String → Api → Api × ℕ
  handle_forwarding_test_pipeline post w now nanos a = (
    record a {
      processor =
          process_normalized codec minute_of w (pipeline_event now nanos a.zone) a.processor;
    },
    200,
  )
  handle_forwarding_test_pipeline _ w now nanos a = (a, 405)

-- handleStorageRepair, of a file that is there
unfoldable pub handle_storage_repair :
    Storage.Codec → RepairFaults → Method → Api → Api × ℕ × Option RepairReport
handle_storage_repair codec fl post a =
    let (file, report, err) = repair_on codec fl (some a.processor.file) in
    let p = elim file as (λ (o : Option (List ℕ)). Processor) [
      | none ↦ a.processor
      | some f ↦ record a.processor { file = f }
    ] in
    elim err [ none ↦ (record a { processor = p }, 200, some report) | some e ↦ (a, 500, none) ]
handle_storage_repair codec fl _ a = (a, 405, none)

-- handleConfigRulesTest, at the time `now`
unfoldable pub handle_config_rules_test :
    Method → Option Event → ℕ → Api → Api × ℕ × Option Decision
handle_config_rules_test post none now a = (a, 400, none)
handle_config_rules_test post (some evt) now a =
    let (p, d) = rule_test evt now a.processor in (record a { processor = p }, 200, some d)
handle_config_rules_test _ body now a = (a, 405, none)
