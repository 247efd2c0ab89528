-- ===== src/Collector.antt =====
-- main of cmd/ot-collector/main.go: the collector that it puts together, and what happens in it
-- while it runs. The goroutines are the servers, the one that takes lines from `incoming`, a handler
-- to each request and the workers of the forward queue; a happening is one step of one of them, and
-- a step that would wait changes nothing. A request, a call of ingest with the Enqueue in it, and a
-- worker's receive with its additions are one step each, so that `queued` is here what it is when no such
-- call is under way; what is between a channel operation and its addition is in Forwarder.Queue.Steps. How main ends is in Collector.Shutdown.
pub mod Closed
pub mod Runs
pub mod Appends
pub mod Received
pub mod Sound
pub mod Always
pub mod Rest
pub mod Configured
pub mod Hops
pub mod Sent
pub mod Stepwise
pub mod Shutdown
use ot_collector.Prelude.{
  ℕ, zero, suc, ◌+◌, ◌-◌, ◌*◌, String, Bool, true, Option, none, some, ◌⊎◌, List, [], ◌∷◌, ℤ, pos,
  ltb, length, if◌then◌else◌, str_eq,
}
use ot_collector.Event.{Event, or_default}
use ot_collector.Config.Env.{Config}
use ot_collector.Config.Store.{Store, Read, Write, Error}
use ot_collector.Config.Rules.{RuleConfig, load_rules}
use ot_collector.Config.Sources.{SourceConfig, load_sources}
use ot_collector.Config.Forwarding.{ForwardingStore, zero_config, load_config}
use ot_collector.Filter
use ot_collector.Forwarder.Queue.{Task, Queue, Channel, try_send, new_queue, worker_count}
use ot_collector.Forwarder.Queue.Process.{
  Reply, new_forwarder, is_enabled, process, send_with_status,
}
use ot_collector.Sources.{known}
use ot_collector.Stats.{new_stats}
use ot_collector.Stream.{new_hub}
use ot_collector.Syslog.Server.{IncomingLog}
use ot_collector.Processor.{Processor, World, set_rules_of, handle_forward_result}
use ot_collector.Processor.Settings.{extract_port}
use ot_collector.Processor.Raw.{Inputs, process_raw}
use ot_collector.Api.{Api}
use ot_collector.Api.Server.{
  Request, Formats, Turn, serve, close_stream, stream_event, with_sources,
}

-- `in_flight` holds the tasks of the workers that are busy.
pub record Collector : Type 0 where
  pub api : Api
  pub incoming : Channel IncomingLog
  pub in_flight : List Task
  pub workers : ℕ
  pub max_age : ℤ

-- A file of settings at the start: os.MkdirAll, os.ReadFile, and what a write of it does.
pub record OnDisk : Type 0 where
  pub directory : Bool
  pub read : Read
  pub write : Write
  pub before : Option String

pub record Disks : Type 0 where
  pub sources : OnDisk
  pub rules : OnDisk
  pub forwarding : OnDisk
  pub events : List ℕ

abbrev no_items : {A : Type 0} → OnDisk → Store A
no_items d = record { items = []; file = d.before }

-- The URL of the first forwarder.
unfoldable pub dmz_url : Config → ForwardingStore → String
dmz_url cfg forwarding = or_default forwarding.config.dmz_collector_url cfg.dmz_collector_url

-- What main puts together from its settings and stores, with extractPort.
unfoldable pub assemble :
    (String → ℤ)
    → Config
    → List ℕ
    → Store SourceConfig
    → Store RuleConfig
    → ForwardingStore
    → Collector
assemble port_of cfg events sources rules forwarding = record {
  api = record {
    zone = cfg.zone;
    processor = set_rules_of rules.items (record {
      zone = cfg.zone;
      file = events;
      forwarder = new_forwarder (dmz_url cfg forwarding) (pos cfg.forward_timeout_seconds);
      forward_queue = some (new_queue (pos cfg.forward_queue_size));
      stats = new_stats;
      filter_engine = Filter.new;
      stream_hub = new_hub;
      forwarding = forwarding;
      forward_timeout = pos cfg.forward_timeout_seconds;
    });
    rule_store = rules;
    source_store = sources;
    known_sources = known (some sources.items);
    dmz_enabled =
        is_enabled (new_forwarder (dmz_url cfg forwarding) (pos cfg.forward_timeout_seconds));
    udp_port = port_of cfg.udp_syslog_addr;
    tcp_port = port_of cfg.tcp_syslog_addr;
    api_port = port_of cfg.api_addr;
    events_file = cfg.events_file;
  };
  incoming = record { capacity = 2048; pending = [] };
  in_flight = [];
  workers = worker_count (pos cfg.forward_workers);
  max_age = pos (cfg.forward_max_age_secs * 1_000_000_000);
}

module _ (f : Formats) (d : Disks) where
  -- NewSourceStore, NewRuleStore and NewForwardingStore
  unfoldable pub new_source_store : Store SourceConfig × Option Error
  new_source_store =
      load_sources f.sources d.sources.directory d.sources.read d.sources.write (no_items d.sources)

  unfoldable pub new_rule_store : Store RuleConfig × Option Error
  new_rule_store =
      load_rules f.rules d.rules.directory d.rules.read d.rules.write (no_items d.rules)

  unfoldable pub new_forwarding_store : ForwardingStore × Option Error
  new_forwarding_store =
      load_config f.forwarding d.forwarding.directory d.forwarding.read d.forwarding.write
        (record { config = zero_config; file = d.forwarding.before })

  -- main, up to its servers: none when a store cannot be loaded, and main returns.
  unfoldable pub start : Config → Option Collector
  start cfg = elim new_source_store.1 [
    | some e ↦ none
    | none ↦ elim new_rule_store.1 [
      | some e ↦ none
      | none ↦ elim new_forwarding_store.1 [
        | some e ↦ none
        | none ↦ some (
            assemble (extract_port f.split_host_port f.atoi) cfg d.events new_source_store.0
              new_rule_store.0 new_forwarding_store.0)
      ]
    ]
  ]

-- What one send gets from outside: json.Marshal, the HTTP client, clocks and the disk.
pub record Delivery : Type 0 where
  pub decimal : ℕ → String
  pub marshal : Event → String ⊎ String
  pub post : String → String → Reply
  pub checked_at : ℕ
  pub before : ℕ
  pub after : ℕ
  pub ended_at : String
  pub disk : Write

pub data Happening : Type 0 where
  -- a server sends to `incoming`
  arrives : IncomingLog → Happening
  -- the goroutine of main takes a line, and ProcessRaw runs
  takes_line : World → Inputs → Happening
  requested : Turn → Request → Happening
  -- the handler of a stream takes an event, or ends
  streams : ℕ → Happening
  leaves : ℕ → Happening
  -- a worker takes a task
  takes_task : Happening
  -- the worker with the n-th of the tasks in flight is done with it
  finishes : ℕ → Delivery → Happening

-- A worker's receive, with the counts.
unfoldable pub take_task : List Task → Queue → Queue × List Task
take_task busy q = elim q.tasks.pending [
  | [] ↦ (q, busy)
  | t ∷ ts ↦ (record { tasks = record q.tasks { pending = ts }; queued = q.queued - 1 }, t ∷ busy)
]

-- The n-th of the tasks in flight and the others; none when there are fewer.
unfoldable pub pick : ℕ → List Task → Option (Task × List Task)
pick n [] = none
pick zero (t ∷ ts) = some (t, ts)
pick (suc n) (t ∷ ts) = elim (pick n ts) [ none ↦ none | some (u, rest) ↦ some (u, t ∷ rest) ]

abbrev pub set_processor : Collector → Processor → Collector
set_processor c p = record c { api = record c.api { processor = p } }

-- The end of a worker's round, with the forwarder that the processor has by then.
unfoldable pub finish_task : Formats → Delivery → Task → Collector → Collector
finish_task f d t c =
    let p = c.api.processor in
    set_processor c (
      handle_forward_result f.forwarding d.disk d.ended_at
        (process c.max_age d.checked_at d.before d.after
          (send_with_status d.decimal d.marshal d.post p.forwarder) t)
        p)

unfoldable pub happen : Formats → Happening → Collector → Collector
happen f (arrives log) c = record c { incoming = (try_send log c.incoming).0 }
happen f (takes_line w go) c = elim c.incoming.pending [
  | [] ↦ c
  | log ∷ rest ↦
      set_processor (record c { incoming = record c.incoming { pending = rest } })
        (process_raw f.storage f.minute_of w (with_sources c.api go) log.raw log.source_ip
          log.transport c.api.processor)
]
happen f (requested t r) c = record c { api = (serve f t r c.api).0 }
happen f (streams id) c = record c { api = stream_event id c.api }
happen f (leaves id) c = record c { api = close_stream id c.api }
happen f takes_task c =
    if ltb (length c.in_flight) c.workers
    then (elim c.api.processor.forward_queue [
      | none ↦ c
      | some q ↦
          let (q', busy) = take_task c.in_flight q in
          set_processor (record c { in_flight = busy })
            (record c.api.processor { forward_queue = some q' })
    ])
    else c
happen f (finishes n d) c = elim (pick n c.in_flight) [
  | none ↦ c
  | some (t, rest) ↦ finish_task f d t (record c { in_flight = rest })
]

-- A run, from its first happening.
unfoldable pub run : Formats → List Happening → Collector → Collector
run f [] c = c
run f (h ∷ hs) c = run f hs (happen f h c)
