-- ===== src/Lib.antt =====
-- The OT collector: a service that takes events from plants, decides by rules what becomes of each
-- one, keeps them in a file, shows them to live clients and forwards them to a collector in the DMZ.
--
-- Every event goes through the processor of cmd/ot-collector/main.go: ingest asks the rule engine
-- for a decision, tags the event, appends it to the event file, publishes it to the clients and
-- puts it in the forward queue, whose workers send it and report back to the processor. The
-- handlers of internal/api change the rules, the sources and the forwarding settings in their stores.
--
-- Which file models which part:
--   Filter, Filter/Match   internal/filter/engine.go: evaluate is Evaluate, apply_rules the loop of
--                          applyRules, fire its body for the rule that matches
--   Float                  sampleToKeepEvery, on the bits of a float64
--   Processor, Processor/Labels   the Processor of cmd/ot-collector/main.go: ingest,
--                          handleForwardResult, RuleTest and the setters
--   Stats, Stats/Views     the Stats of cmd/ot-collector/main.go, and what they show
--   Storage, Storage/Lines, Storage/Query   internal/storage/jsonl.go, the file as its bytes;
--                          Storage/Faults has its reads and Repair on a disk that fails
--   Forwarder/Queue, its Steps and Process   internal/forwarder: Enqueue, Drain and process as
--                          functions, the interleavings of the goroutines as a step relation
--   Stream                 internal/api/stream.go
--   Config/Store, Config/Rules, Config/Sources, Config/Forwarding, Config/Env   internal/config
--   Sources                internal/sources/sources.go
--   Syslog, Syslog/Server  internal/syslog: parser.go, and what the servers of tcp.go and udp.go
--                          hand on; Syslog/Server/Loops has their loops, which may be stopped
--   Normalizer             FromParsed of internal/normalizer/normalizer.go, with its children:
--     Telemetry, Structured   lines of JSON: fromStructuredTelemetryJSON and what it calls
--     Filterlog, Firewall     lines of the firewall: parseOPNsenseFilterlog and what it calls
--     Patterns, OpcuaTags     internal/normalizer/patterns.go
--   Normalizers            internal/normalizers/common.go and the end of Apply
--   Normalizers/Apply      Apply of internal/normalizers/apply.go
--   Normalizers/Cases      the switches that the normalizers of the sources have in common
--   Normalizers/Firewall, Plc, Scada, Ews, Opcua, Gds   the normalizers of the sources, one file of
--                          internal/normalizers each; Ews has that of fuxa_gds.go too
--   Processor/Raw          ProcessRaw of cmd/ot-collector/main.go
--   Api, Api/Events        internal/api/handlers.go, the handlers that change state and those
--                          through which events come and go; Api/Shown is handleSources, Api/Health
--                          handleHealth and the handlers of the statistics, and
--                          Api/ForwardingTest is handleForwardingTest
--   Api/Routes, Api/Server internal/api/server.go: patterns is the table of Run, is_clean the paths
--                          that ServeMux does not redirect, serve a request, and
--                          open_stream, stream_event and close_stream are handleEventStream
--   Collector              main of cmd/ot-collector/main.go: start and what it assembles, and happen,
--                          one step of one goroutine of the running collector;
--                          Collector/Shutdown is how main waits for its four goroutines and ends
--   Event                  internal/event/model.go
--   Prelude, GoText        names and lemmas that the others share, and Go's functions on texts
--   Tests                  runs on concrete data
-- The other files hold proofs, and are named for what they prove.
--
-- A method is a function from its state to the next; what the mutexes make one step is one call.
-- A line of text goes from the servers of internal/syslog through Parse, FromParsed and Apply to
-- ingest. Regular expressions are arguments: functions from a text to the groups that the code reads.
-- So are clocks, new ids, the answers of the disk and of the HTTP client, encoding/json, encoding/csv,
-- the formats of time, strconv and os.Getenv, and what a theorem needs of them is a named hypothesis
-- of it. All loops are structural recursion: there is no fuel.
--
-- Bounds. Counters are natural numbers: that an int64 is full is left out, except in the duplicate
-- window, whose nanoseconds overflow in the model as in the code. A text folds its ASCII letters
-- only. A sample rate is a float64 that is not a NaN, which JSON cannot write; the reciprocal is
-- rounded as IEEE 754 says and truncated as on amd64. Times do not come before 1970.
--
-- Not modelled: sockets and signals, which are I/O, and what a goroutine has under way when the
-- process ends; listening in internal/api/server.go, and the status with which ServeMux redirects
-- a path that is not clean; the files of the web interface, JSON and HTTP, which are libraries';
-- web, deploy and scripts.
pub mod Prelude
pub mod GoText
pub mod Float
pub mod Event
pub mod Storage
pub mod Collector
pub mod Config
pub mod Sources
pub mod Stats
pub mod Processor
pub mod Forwarder
pub mod Stream
pub mod Filter
pub mod Api
pub mod Tests
pub mod Syslog
pub mod Normalizer
pub mod Normalizers
