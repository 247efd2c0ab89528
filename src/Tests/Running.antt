-- ===== src/Tests/Running.antt =====
-- A run of the collector from its start: a line is taken, a request comes, a worker sends.
use ot_collector.Prelude.{
  ◌==◌, arith, ℕ, ◌≡◌, ◌≢◌, ◌≤◌, refl, String, true, Option, none, some, inr, List, [], ◌∷◌, pos,
  length, All, str_eq, if◌then◌else◌,
}
use ot_collector.GoText.{trim_space}
use ot_collector.Event.{Event}
use ot_collector.Config.Env.{Config, info}
use ot_collector.Config.Store
use ot_collector.Config.Store.{Store, written, missing}
use ot_collector.Config.Rules.{RuleConfig, load_rules}
use ot_collector.Config.Sources.{SourceConfig, load_sources}
use ot_collector.Config.Forwarding.{load_config, persist_config}
use ot_collector.Forwarder.Queue.{worker_count, new_queue, buffer_size}
use ot_collector.Forwarder.Queue.Process.{response, is_stale, is_enabled}
use ot_collector.Api.{put, post}
use ot_collector.Api.Routes.{is_clean, clean_elements, route, storage_repair}
use ot_collector.Api.Routes.Below.{below_rules, route-below_rules}
use ot_collector.Syslog.Server.{IncomingLog}
use ot_collector.Forwarder.Queue.{try_send}
use ot_collector.Storage.Faults.{faultless}
use ot_collector.Api.Server.{Formats, Turn, serve}
use ot_collector.Api.Server.RulePaths.{at_rule, to_rule, to_rules_test, serve-to_rule}
use ot_collector.Api.ForwardingTest.{Sent, answered, not_built, answer_of, handle_forwarding_test}
use ot_collector.Collector.{
  Collector, OnDisk, Disks, Delivery, Happening, arrives, takes_line, requested, streams,
  takes_task, finishes, happen, run, start, assemble, new_source_store, new_rule_store,
  new_forwarding_store,
}
use ot_collector.Collector.Appends.{Continues, RepairsNothing, run-Continues}
use ot_collector.Collector.Shutdown.{
  udp_server, api_server, Notice, worker_takes, accepts, fails, cancels, stops,
}
use ot_collector.Collector.Sound.{IsSound}
use ot_collector.Collector.Always.{IsStaffed, run-IsSound}
use ot_collector.Collector.Rest.{IsBusy, rests, works, line, work, GoesOn, busy_ends}
use ot_collector.Collector.Configured.{start_untested}
use ot_collector.Collector.Sent.{line_event, line_path, line_task, IsDelivered, run-IsDelivered}
use ot_collector.Processor.Settings.{extract_port}
use ot_collector.Processor.{decide_event, will_forward}
use ot_collector.Processor.Ingest.{forwards, decision}
use ot_collector.Tests.{engine_runs, losing, pump, noisy, letter, one_list}
use ot_collector.Tests.Collector.{minute, world, settings, processor}
use ot_collector.Tests.Syslog.{inputs, no_json, api}

abbrev no_sources : Store.Codec SourceConfig
no_sources = record {
  encode = λ (xs : List SourceConfig). some "[]";
  decode = λ (s : String). some [];
}

-- Formats in which a body with one rule decodes to `noisy`.
abbrev formats : Formats
formats = record {
  storage = letter;
  minute_of = minute;
  rules = one_list [];
  sources = no_sources;
  forwarding = settings;
  bodies = no_json;
  rule_list = λ (b : Option String). none;
  one_rule = λ (b : Option String). some noisy;
  source_list = λ (b : Option String). none;
  one_source = λ (b : Option String). none;
  settings = λ (b : Option String). none;
  tested_event = λ (b : Option String). some pump;
  atoi = λ (s : String). none;
  split_host_port = λ (s : String). none;
  filters = λ (b : Option String). none;
  test_json = λ (e : Event). "body";
}

abbrev replies : String → String → Sent
replies url body = answered 3 202 ""

abbrev turn : Turn
turn = record {
  write = written;
  faults = faultless;
  send = replies;
  world = world;
  inputs = inputs;
  posted = λ (n : ℕ) (e : Event). record { evt = e; now = "t2"; new_id = "e9"; world = world };
  new_id = "e9";
  now_text = "t2";
  nanos = "2";
  now = 2;
}

serve-to_rule_example : serve formats turn (at_rule put "test" [] (some "{}")) api ≡ (
    if str_eq "test" "test"
    then to_rules_test formats turn put [] (some "{}") api
    else to_rule formats turn put [] (some "{}") api "test")
unfolding is_clean clean_elements
serve-to_rule_example = serve-to_rule formats turn put [] (some "{}") api "test" refl

abbrev config : Config
config = record {
  zone = "OT";
  udp_syslog_addr = "0.0.0.0:514";
  tcp_syslog_addr = "0.0.0.0:1514";
  api_addr = "0.0.0.0:8088";
  events_file = "/data/events.jsonl";
  dmz_collector_url = "http://dmz";
  forward_timeout_seconds = 10;
  forward_workers = 4;
  forward_queue_size = 2048;
  forward_max_age_secs = 30;
  log_level = info;
}

abbrev new_file : OnDisk
new_file = record { directory = true; read = missing; write = written; before = none }

abbrev disks : Disks
disks = record { sources = new_file; rules = new_file; forwarding = new_file; events = [] }

abbrev started : Collector
started =
    assemble (extract_port formats.split_host_port formats.atoi) config []
      (new_source_store formats disks).0 (new_rule_store formats disks).0
      (new_forwarding_store formats disks).0

starts : start formats disks config ≡ some started
unfolding start new_source_store new_rule_store new_forwarding_store load_sources Store.load_or_init
    load_rules load_config persist_config
starts = refl

abbrev log : IncomingLog
log = record {
  raw = "<165>1 - plc1 openplc - - started";
  source_ip = "192.168.1.20";
  transport = "udp";
}

-- A line arrives and is taken, a rule is changed, a stream is opened, and a worker finds no task.
abbrev day : List Happening
day =
    arrives log
    ∷ takes_line world inputs
    ∷ requested turn (at_rule put "r1" [] (some "{}"))
    ∷ streams 0
    ∷ takes_task
    ∷ []

run-IsSound_example :
    IsSound
      (if config.forward_queue_size == 0 then 2048 else config.forward_queue_size)
      (run formats day started).api.processor
    × IsStaffed
        (if config.forward_workers == 0 then 4 else config.forward_workers)
        (run formats day started)
run-IsSound_example = run-IsSound formats config disks started starts day

harmless : All RepairsNothing day
harmless = (tt, (tt, (other_path, (tt, (tt, tt)))))
  where
    other_path : route (below_rules "r1") ≢ some storage_repair
    other_path e = let found = route-below_rules "r1" in cc

run-Continues_example :
    Continues started.api.processor.file (run formats day started).api.processor.file
run-Continues_example = run-Continues formats day started harmless

abbrev delivery : Delivery
delivery = record {
  decimal = λ (n : ℕ). "202";
  marshal = λ (e : Event). inr "body";
  post = λ (url body : String). response 202;
  checked_at = 8;
  before = 8;
  after = 9;
  ended_at = "t3";
  disk = written;
}

-- The line that has arrived is taken.
one_line : IsBusy formats (run formats (arrives log ∷ []) started) (takes_line world inputs ∷ [])
unfolding run happen try_send assemble
one_line =
    works (takes_line world inputs) []
      (line world inputs {c = run formats (arrives log ∷ []) started} log [] refl) rests

busy_ends_example :
    (length (takes_line world inputs ∷ []) ≤ work (run formats (arrives log ∷ []) started))
    × GoesOn (run formats (takes_line world inputs ∷ []) (run formats (arrives log ∷ []) started))
busy_ends_example =
    busy_ends formats config disks started (arrives log ∷ []) (takes_line world inputs ∷ []) world
      inputs delivery starts one_line

start_untested_example :
    (started.api.processor.forwarder.url ≡ trim_space "http://dmz")
    × (is_enabled started.api.processor.forwarder ≡ true)
    × (handle_forwarding_test (λ (e : Event). "body") replies post "t2" "2" started.api
        ≡ (200, some (answer_of (not_built "forwarding URL not configured"))))
unfolding new_forwarding_store load_config persist_config trim_space
start_untested_example =
    start_untested formats config disks started (λ (e : Event). "body") replies "t2" "2" starts refl
      refl

-- A rule that forwards every event, and a collector in which a line waits.
abbrev sending : RuleConfig
sending = record losing { store_locally = true; forward_to_dmz = true }

abbrev ready : Collector
ready = record started {
  api = record api { processor = processor sending };
  incoming = record { capacity = 2048; pending = log ∷ [] };
}

sends_log : forwards world (line_event inputs log ready) (line_path log) ready.api.processor ≡ true
unfolding engine_runs forwards decision decide_event will_forward is_enabled
sends_log = refl

run-IsDelivered_example :
    IsDelivered
      (line_task world inputs log ready).evt.id
      []
      ready
      (run formats (takes_line world inputs ∷ takes_task ∷ finishes 0 delivery ∷ []) ready)
unfolding assemble new_queue buffer_size worker_count is_stale
run-IsDelivered_example =
    run-IsDelivered formats ready world inputs delivery log [] (new_queue (pos 2)) "body" 202 refl
      refl refl (omega arith) (omega arith) sends_log refl refl refl (omega arith) (omega arith)

-- A worker sends and a connection is open; the UDP server fails; the API is the first to stop.
abbrev port_taken : List Notice
port_taken = worker_takes ∷ accepts ∷ fails udp_server ∷ cancels udp_server ∷ stops api_server ∷ []
