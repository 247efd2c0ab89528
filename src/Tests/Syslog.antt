-- ===== src/Tests/Syslog.antt =====
-- Runs of ProcessRaw and of the TCP server.
use ot_collector.Prelude.{◌≡◌, refl, some, ℕ, String, none, List, pos, [], ◌∷◌, true, false}
use ot_collector.Event.{Event}
use ot_collector.Normalizer.{Packages}
use ot_collector.Normalizer.Firewall.{Clock}
use ot_collector.Processor.{decide_event}
use ot_collector.Processor.Ingest.{decision, forwards, enriched, Outcome}
use ot_collector.Processor.Raw.{Inputs, event_of_line, process_raw, Tells, process_raw-Outcome}
use Prim.Native.String
use ot_collector.Syslog.Server.{handle_tcp_conn, handle_lines}
use ot_collector.Syslog.Server.Loops.{LineRound, read_lines}
use ot_collector.Syslog.Server.Loops.Begins.{
  IsBeginning, lines_of, some_stop, read_lines-IsBeginning,
}
use ot_collector.Syslog.Server.Unfinished.{is_one_line, handle_tcp_conn-unfinished}
use ot_collector.Api.{Api}
use ot_collector.Api.Events.{Bodies, handle_test_event}
use ot_collector.Api.Events.Answers.{IsAnswer, handle_test_event-IsAnswer}
use ot_collector.Tests.{noisy, letter, no_rules}
use ot_collector.Tests.Collector.{minute, world, processor}
use ot_collector.Tests.Lines.{library}
use ot_collector.Tests.Normalizing.{expressions}

abbrev clock : Clock
clock = record { new_id = "e10"; now_text = "t3"; timestamp_now = "t3" }

abbrev packages : Packages
packages = record {
  decoders = record {
    decode = λ (s : String). none;
    sprint = λ (bits : ℕ). "0";
    rfc3339_nano = λ (s : String). none;
    rfc3339 = λ (s : String). none;
  };
  itoa = λ (n : ℕ). "0";
  read_csv = λ (s : String). none;
  key_values = λ (s : String). [];
  regexps = expressions;
}

abbrev pub inputs : Inputs
inputs = record { parsers = library; packages = packages; clock = clock; store = none }

abbrev arrived : Event
arrived = event_of_line inputs "OT" "<165>1 - plc1 openplc - - started" "192.168.1.20"

process_raw-Outcome_example :
    Tells "<165>1 - plc1 openplc - - started"
      (enriched world arrived "syslog_udp" (processor noisy))
    × Outcome letter world
        (enriched world arrived "syslog_udp" (processor noisy))
        "syslog_udp"
        (decision world arrived "syslog_udp" (processor noisy))
        (forwards world arrived "syslog_udp" (processor noisy))
        (record (processor noisy) {
          filter_engine = (decide_event world arrived (processor noisy)).0;
        })
        (process_raw letter minute world inputs "<165>1 - plc1 openplc - - started" "192.168.1.20"
          "udp"
          (processor noisy))
process_raw-Outcome_example =
    process_raw-Outcome letter minute world inputs "<165>1 - plc1 openplc - - started"
      "192.168.1.20" "udp" (processor noisy)

handle_tcp_conn-unfinished_example :
    handle_tcp_conn "10.0.0.9" (String.◌++◌ "one\ntwo\n" "three")
    ≡ handle_tcp_conn "10.0.0.9" "one\ntwo\n"
unfolding is_one_line
handle_tcp_conn-unfinished_example = handle_tcp_conn-unfinished "10.0.0.9" "one\ntwo\n" "three" refl

-- A blank line, a message, and one whose send is stopped.
abbrev rounds : List LineRound
rounds =
    record { stopped_before = false; line = some " "; stopped_sending = false }
    ∷ record { stopped_before = false; line = some "one"; stopped_sending = false }
    ∷ record { stopped_before = false; line = some "two"; stopped_sending = true }
    ∷ record { stopped_before = false; line = some "three"; stopped_sending = false }
    ∷ []

read_lines-IsBeginning_example :
    IsBeginning
      (handle_lines "10.0.0.9" (lines_of rounds))
      (some_stop rounds)
      (read_lines "10.0.0.9" rounds).0
read_lines-IsBeginning_example = read_lines-IsBeginning "10.0.0.9" rounds

abbrev pub api : Api
api = record {
  zone = "OT";
  processor = processor noisy;
  rule_store = no_rules;
  source_store = record { items = []; file = none };
  known_sources = [];
  dmz_enabled = true;
  udp_port = pos 514;
  tcp_port = pos 514;
  api_port = pos 8088;
  events_file = "/data/events.jsonl";
}

-- Decoders that know no JSON.
abbrev pub no_json : Bodies
no_json = record {
  array = λ (s : String). none;
  object = λ (s : String). none;
  wrapped = λ (s : String). record { raw = ""; source_ip = ""; event = none };
}

handle_test_event-IsAnswer_example :
    IsAnswer letter minute world " plc started " api
      (handle_test_event letter minute no_json world inputs "e11" (some " plc started ") api)
handle_test_event-IsAnswer_example =
    handle_test_event-IsAnswer letter minute world no_json inputs "e11" " plc started " api
