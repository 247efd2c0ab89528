-- ===== src/Api/Server.antt =====
-- The server of internal/api/server.go: what a request does to the collector, by its route, and what
-- a client of /events/stream takes from its channel.
pub mod RulePaths
use ot_collector.Prelude.{
  ℕ, String, ◌==◌, Option, none, some, List, [], ◌∷◌, if◌then◌else◌, Dict, ℤ,
}
use ot_collector.Event.{Event}
use ot_collector.Config.Store
use ot_collector.Config.Store.{Write}
use ot_collector.Config.Rules.{RuleConfig}
use ot_collector.Config.Sources.{SourceConfig}
use ot_collector.Config.Forwarding.{ForwardingConfig, ConfigCodec}
use ot_collector.Storage
use ot_collector.Storage.Faults.{RepairFaults}
use ot_collector.Stream.{Client, StreamHub, subscribe, unsubscribe}
use ot_collector.Processor.{World}
use ot_collector.Processor.Raw.{Inputs}
use ot_collector.Api.{
  Api, Method, get, post, Posted, handle_config_rules, handle_config_rule_by_id,
  handle_config_sources, handle_config_source_by_id, handle_config_forwarding,
  handle_forwarding_reset_queue,
}
use ot_collector.Api.Events.{
  Bodies, get_events, handle_post_events, handle_test_event, handle_forwarding_test_pipeline,
  handle_storage_repair, handle_config_rules_test,
}
use ot_collector.Api.Shown.{handle_filter_config}
use ot_collector.Api.ForwardingTest.{Sent, handle_forwarding_test}
use ot_collector.Api.Routes.{
  Route, web, filter_config, forwarding_test, health, sources, stats, stats_summary, stats_timeline,
  events, event_stream, storage_repair, config_sources, config_source_by_id, config_rules,
  config_rule_by_id, config_rules_test, config_forwarding, forwarding_test_pipeline,
  forwarding_reset_queue, test_event, route, is_clean,
}

pub record Request : Type 0 where
  pub method : Method
  pub path : String
  pub url : Dict String
  pub body : Option String

-- JSON, and the formats of time: what a body decodes to, none when it is refused, and how the files
-- are written.
pub record Formats : Type 0 where
  pub storage : Storage.Codec
  pub minute_of : String → String
  pub rules : Store.Codec RuleConfig
  pub sources : Store.Codec SourceConfig
  pub forwarding : ConfigCodec
  pub bodies : Bodies
  pub rule_list : Option String → Option (List RuleConfig)
  pub one_rule : Option String → Option RuleConfig
  pub source_list : Option String → Option (List SourceConfig)
  pub one_source : Option String → Option SourceConfig
  pub settings : Option String → Option ForwardingConfig
  pub tested_event : Option String → Option Event
  pub atoi : String → Option ℤ
  pub split_host_port : String → Option (String × String)
  pub filters : Option String → Option (Dict String)
  pub test_json : Event → String

-- What one request gets from outside: clocks, ids, the disk and the
-- collector that is sent to.
pub record Turn : Type 0 where
  pub write : Write
  pub faults : RepairFaults
  pub send : String → String → Sent
  pub world : World
  pub inputs : Inputs
  pub posted : ℕ → Event → Posted
  pub new_id : String
  pub now_text : String
  pub nanos : String
  pub now : ℕ

-- The hub of an event stream's client.
abbrev set_hub : Api → StreamHub → Api
set_hub a h = record a { processor = record a.processor { stream_hub = h } }

-- handleEventStream, up to the first wait: the client is subscribed until the request ends.
unfoldable pub open_stream : Api → Api × ℕ
open_stream a = let (h, id) = subscribe a.processor.stream_hub in (set_hub a h, 200)

-- The end of handleEventStream.
unfoldable pub close_stream : ℕ → Api → Api
close_stream id a = set_hub a (unsubscribe id a.processor.stream_hub)

-- The client with the id, after it has received what its channel holds first.
unfoldable pub receive_first : ℕ → List Client → List Client
receive_first id [] = []
receive_first id (c ∷ cs) =
    let rest = receive_first id cs in
    if c.id == id
    then record c {
      channel = record c.channel { pending = elim c.channel.pending [ [] ↦ [] | e ∷ es ↦ es ] };
    }
      ∷ cs
    else c ∷ rest

-- One event of the loop of handleEventStream: <-ch
unfoldable pub stream_event : ℕ → Api → Api
stream_event id a =
    let h = a.processor.stream_hub in set_hub a (record h { clients = receive_first id h.clients })

-- The resolver reads the source store as it is.
abbrev pub with_sources : Api → Inputs → Inputs
with_sources a go = record go { store = some a.source_store.items }

module _ (f : Formats) (t : Turn) where
  -- handleEvents; a read changes nothing
  unfoldable pub handle_events : Method → Dict String → Option String → Api → Api × ℕ
  handle_events post url body a =
      let (b, status, ids) = handle_post_events f.storage f.minute_of f.bodies t.posted body a in
      (b, status)
  handle_events get url body a =
      (a, elim (get_events f.storage f.atoi t.faults.input url a) [ none ↦ 500 | some es ↦ 200 ])
  handle_events _ url body a = (a, 405)

  -- A request at a route. The last ones change nothing; the status of a file of the web interface is
  -- not modelled.
  unfoldable pub serve_route : Route → Request → Api → Api × Option ℕ
  serve_route events r a = let (b, s) = handle_events r.method r.url r.body a in (b, some s)
  serve_route event_stream r a = let (b, s) = open_stream a in (b, some s)
  serve_route storage_repair r a =
      let (b, s, report) = handle_storage_repair f.storage t.faults r.method a in (b, some s)
  serve_route config_sources r a =
      let (b, s) = handle_config_sources f.sources t.write r.method (f.source_list r.body) a in
      (b, some s)
  serve_route config_source_by_id r a =
      let (b, s) =
        handle_config_source_by_id f.sources t.write r.path r.method (f.one_source r.body) a in
      (b, some s)
  serve_route config_rules r a =
      let (b, s) = handle_config_rules f.rules t.write r.method (f.rule_list r.body) a in
      (b, some s)
  serve_route config_rule_by_id r a =
      let (b, s) = handle_config_rule_by_id f.rules t.write r.path r.method (f.one_rule r.body) a in
      (b, some s)
  serve_route config_rules_test r a =
      let (b, s, d) = handle_config_rules_test r.method (f.tested_event r.body) t.now a in
      (b, some s)
  serve_route config_forwarding r a =
      let (b, s) = handle_config_forwarding f.forwarding t.write r.method (f.settings r.body) a in
      (b, some s)
  serve_route forwarding_test_pipeline r a =
      let (b, s) =
        handle_forwarding_test_pipeline f.storage f.minute_of r.method t.world t.now_text t.nanos
          a in
      (b, some s)
  serve_route forwarding_reset_queue r a =
      let (b, s, n) = handle_forwarding_reset_queue r.method a in (b, some s)
  serve_route test_event r a =
      let (b, s) =
        handle_test_event f.storage f.minute_of f.bodies t.world (with_sources a t.inputs) t.new_id
          r.body a in
      (b, some s)
  serve_route health r a = (a, some 200)
  serve_route sources r a = (a, some 200)
  serve_route stats r a = (a, some 200)
  serve_route stats_summary r a = (a, some 200)
  serve_route stats_timeline r a = (a, some 200)
  serve_route filter_config r a =
      let (s, cfg) = handle_filter_config r.method (f.filters r.body) in (a, some s)
  serve_route forwarding_test r a =
      let (s, answer) = handle_forwarding_test f.test_json t.send r.method t.now_text t.nanos a in
      (a, some s)
  serve_route web r a = (a, none)

  -- A request, at the handler that ServeMux finds for its path; there is none for a path that does
  -- not start with a slash.
  unfoldable pub serve : Request → Api → Api × Option ℕ
  serve r a =
      if is_clean r.path
      then (elim (route r.path) [ none ↦ (a, none) | some at ↦ serve_route at r a ])
      else (a, none)
