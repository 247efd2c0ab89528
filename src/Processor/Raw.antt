-- ===== src/Processor/Raw.antt =====
-- ProcessRaw of cmd/ot-collector/main.go: a line that comes by UDP or TCP, from its parse to the file.
use Prim.Native.String
use ot_collector.Prelude.{◌≡◌, ap, ◌∙◌, String, Bool, Option, List, str_eq, not}
use ot_collector.GoText.{trim_space}
use ot_collector.Event.{Event, or_default, make_tags}
use ot_collector.Config.Sources.{SourceConfig}
use ot_collector.Filter.{Decision}
use ot_collector.Storage
use ot_collector.Syslog.{Library, parse}
use ot_collector.Syslog.Parts.{parse-IsParsed}
use ot_collector.Normalizers.Apply.Kept.{
  Origin, origin, Kept, Kept-refl, Kept-trans, Kept-if, Kept-set_tag,
}
use ot_collector.Normalizers.Apply.Whole.{Kept-make_tags}
use ot_collector.Normalizer.{Packages, from_parsed}
use ot_collector.Normalizer.Firewall.{Clock}
use ot_collector.Normalizer.Raw.{IsOf, from_parsed-IsOf}
use ot_collector.Processor.{Processor, World, baseline, enrich, decide_event, ingest}
use ot_collector.Processor.Ingest.{Outcome, decision, forwards, enriched, ingest-Outcome}

-- What ProcessRaw calls, with what it gets from outside; `store` is the source store, if there is one.
pub record Inputs : Type 0 where
  pub parsers : Library
  pub packages : Packages
  pub clock : Clock
  pub store : Option (List SourceConfig)

-- The event of a line.
unfoldable pub event_of_line : Inputs → String → String → String → Event
event_of_line go zone raw source_ip =
    from_parsed go.packages go.clock go.store zone (parse go.parsers raw) source_ip

-- ProcessRaw
unfoldable pub process_raw :
    Storage.Codec
    → (String → String)
    → World
    → Inputs
    → String
    → String
    → String
    → Processor
    → Processor
process_raw codec minute_of w go raw source_ip transport p =
    ingest codec minute_of w (event_of_line go p.zone raw source_ip)
      (String.◌++◌ "syslog_" transport) p

Kept-enrich : (path : String) (d : Decision) (fw : Bool) (e : Event) → Kept e (enrich path d fw e)
unfolding enrich
Kept-enrich path d fw e = Kept-trans (Kept-set_tag "ingestion_path" _ e) (
    Kept-trans (Kept-set_tag "collector_decision" _ _) (
      Kept-trans (Kept-set_tag "collector_decision_hint" _ _) (
        Kept-trans (Kept-set_tag "decision_reason" _ _) (
          Kept-trans (Kept-set_tag "siem_index_hint" _ _) (
            Kept-trans (Kept-set_tag "splunk_sourcetype" _ _) (
              Kept-trans
                (Kept-if (not (str_eq d.matched_rule_id "")) (Kept-set_tag "matched_rule_id" _ _)
                  (Kept-refl _))
                (Kept-if fw (Kept-set_tag "forwarding_status" "queued" _) (Kept-refl _))))))))

-- What an event of a line says of it, when it is stored.
pub record Tells (line : String) (e : Event) : Type 0 where
  pub raw_kept : e.raw ≡ trim_space line
  pub protocol_syslog : e.protocol ≡ "syslog"

module _ (w : World) (go : Inputs) (line source_ip path : String) (p : Processor) where
  -- The event of the line, and the event that is stored and forwarded.
  abbrev arrived : Event
  arrived = event_of_line go p.zone line source_ip

  arrived-IsOf : IsOf go.clock (parse go.parsers line) arrived
  unfolding event_of_line
  arrived-IsOf =
      from_parsed-IsOf go.packages go.clock go.store p.zone (parse go.parsers line) source_ip

  baseline-Tells : Tells line (baseline w p.zone arrived)
  unfolding baseline or_default
  baseline-Tells =
      let same : (e : Event) → origin (make_tags e) ≡ origin e = λ e. (Kept-make_tags e).same in
      record {
        raw_kept =
            ap (λ (o : Origin). o.raw) (same _)
            ∙ arrived-IsOf.raw_kept
            ∙ (parse-IsParsed go.parsers line).raw_kept;
        protocol_syslog =
            ap (λ (o : Origin). o.protocol) (same _)
            ∙ ap (λ (s : String). or_default s "json") arrived-IsOf.protocol_syslog;
      }

  enriched-Tells : Tells line (enriched w arrived path p)
  unfolding enriched
  enriched-Tells =
      let same =
        (Kept-enrich path (decision w arrived path p) (forwards w arrived path p)
          (baseline w p.zone arrived)).same in
      record {
        raw_kept = ap (λ (o : Origin). o.raw) same ∙ baseline-Tells.raw_kept;
        protocol_syslog = ap (λ (o : Origin). o.protocol) same ∙ baseline-Tells.protocol_syslog;
      }

-- A line that comes by UDP or TCP: what is stored, shown and forwarded of it, by the decision of the
-- engine, is one event, whose raw text is the line, trimmed, and whose protocol is "syslog", whatever
-- the parser, the normalizers and the decoders find in it.
pub process_raw-Outcome :
    (codec : Storage.Codec) (minute_of : String → String) (w : World) (go : Inputs)
    (line source_ip transport : String) (p : Processor)
    → let path = String.◌++◌ "syslog_" transport in
      let evt = event_of_line go p.zone line source_ip in
      Tells line (enriched w evt path p)
      × Outcome codec w
          (enriched w evt path p)
          path
          (decision w evt path p)
          (forwards w evt path p)
          (record p { filter_engine = (decide_event w evt p).0 })
          (process_raw codec minute_of w go line source_ip transport p)
unfolding process_raw
process_raw-Outcome codec minute_of w go line source_ip transport p =
    let path = String.◌++◌ "syslog_" transport in
    (
      enriched-Tells w go line source_ip path p,
      ingest-Outcome codec minute_of w (event_of_line go p.zone line source_ip) path p,
    )
