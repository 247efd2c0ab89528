-- ===== src/Normalizer/Raw.antt =====
-- Where the event of a line says that it comes from.
use ot_collector.Prelude.{
  ◌≡◌, refl, ap, ◌∙◌, String, Bool, true, false, ◌||◌, not, Option, none, some, if◌then◌else◌,
  str_eq, List, ℕ, Dict, ◌&&◌,
}
use ot_collector.GoText.{to_lower, contains, trim_space}
use ot_collector.Event.{Event}
use ot_collector.Config.Sources.{SourceConfig}
use ot_collector.Sources.{SourceInfo, resolve}
use ot_collector.Syslog.{ParsedMessage}
use ot_collector.Normalizers.Apply.Kept.{Origin}
use ot_collector.Normalizers.Apply.Whole.{trace-apply}
use ot_collector.Normalizer.{Packages, plain_event, event_of, from_parsed}
use ot_collector.Normalizer.Filterlog.{FilterlogParseResult}
use ot_collector.Normalizer.Firewall.{
  Clock, judge, firewall_event, read_payload, parse_opnsense_filterlog, looks_like_filterlog,
  starts_with_digit, strip_filterlog_structured_data,
}
use ot_collector.Normalizer.Telemetry.{Json}
use ot_collector.Normalizer.Structured.{
  extract_structured_telemetry_json, from_structured_telemetry_json,
}

-- The event has the id and the time that the normalizer got, the protocol of the collector, and
-- the raw text of the parse.
pub record IsOf (clock : Clock) (p : ParsedMessage) (e : Event) : Type 0 where
  pub id_new : e.id ≡ clock.new_id
  pub received_now : e.received_at ≡ clock.now_text
  pub protocol_syslog : e.protocol ≡ "syslog"
  pub raw_kept : e.raw ≡ p.raw

-- The same of an event that may be missing.
data IsOfSome (clock : Clock) (p : ParsedMessage) : Option Event → Type 0 where
  nothing : IsOfSome clock p none
  just : {e : Event} → IsOf clock p e → IsOfSome clock p (some e)

IsOfSome-if :
    {clock : Clock} {p : ParsedMessage} {x y : Option Event} (b : Bool)
    → IsOfSome clock p x
    → IsOfSome clock p y
    → IsOfSome clock p (if b then x else y)
IsOfSome-if true hx hy = hx
IsOfSome-if false hx hy = hy

IsOf-if :
    {clock : Clock} {p : ParsedMessage} {x y : Event} (b : Bool)
    → IsOf clock p x
    → IsOf clock p y
    → IsOf clock p (if b then x else y)
IsOf-if true hx hy = hx
IsOf-if false hx hy = hy

module _ (clock : Clock) (p : ParsedMessage) where
  as_before :
      {e : Event} (category severity message : String)
      → IsOf clock p e
      → IsOf clock p
          (record e { event_category = category; severity = severity; message = message })
  as_before category severity message h = record {
    id_new = h.id_new;
    received_now = h.received_now;
    protocol_syslog = h.protocol_syslog;
    raw_kept = h.raw_kept;
  }

  judge-IsOf : (r : FilterlogParseResult) (e : Event) → IsOf clock p e → IsOf clock p (judge r e)
  unfolding judge
  judge-IsOf r e h =
      let acted =
        IsOf-if (str_eq (to_lower r.action) "block" || str_eq (to_lower r.action) "reject")
          (as_before _ _ _ h) (as_before _ _ _ h) in
      IsOf-if (contains (to_lower r.reason) "bad" || not (str_eq r.warning ""))
        (as_before _ _ _ acted) acted

  firewall_event-IsOf :
      (zone source_ip : String) (resolved : SourceInfo)
      → IsOf clock p (firewall_event clock zone p source_ip resolved)
  unfolding firewall_event
  firewall_event-IsOf zone source_ip resolved = record {
    id_new = refl;
    received_now = refl;
    protocol_syslog = refl;
    raw_kept = refl;
  }

  tagged-IsOf :
      {e : Event} (tags : Option (Dict String))
      → IsOf clock p e
      → IsOf clock p (record e { tags = tags })
  tagged-IsOf tags h = record {
    id_new = h.id_new;
    received_now = h.received_now;
    protocol_syslog = h.protocol_syslog;
    raw_kept = h.raw_kept;
  }

  parse_opnsense_filterlog-IsOf :
      (itoa : ℕ → String) (read_csv : String → Option (List String)) (zone source_ip : String)
      (resolved : SourceInfo)
      → IsOfSome clock p (parse_opnsense_filterlog itoa read_csv clock zone p source_ip resolved)
  unfolding parse_opnsense_filterlog read_payload
  parse_opnsense_filterlog-IsOf itoa read_csv zone source_ip resolved =
      let h = firewall_event-IsOf zone source_ip resolved in
      let body = trim_space (strip_filterlog_structured_data p.message) in
      IsOfSome-if
        (not (looks_like_filterlog itoa read_csv p) && not (str_eq resolved.source_type "firewall"))
        nothing
        (IsOfSome-if (not (starts_with_digit body))
          (just (tagged-IsOf _ (as_before "error" "error" _ h)))
          (just (judge-IsOf _ _ (tagged-IsOf _ h))))

chosen-IsOf :
    (clock : Clock) (p : ParsedMessage) (payload : Option (Dict Json)) (parsed : Option Event)
    (read : Dict Json → Event) (plain : Event)
    → ((d : Dict Json) → IsOf clock p (read d))
    → IsOfSome clock p parsed
    → IsOf clock p plain
    → IsOf clock p
        (elim payload [ some d ↦ read d | none ↦ elim parsed [ some evt ↦ evt | none ↦ plain ] ])
chosen-IsOf clock p (some d) parsed read plain h ho hp = h d
chosen-IsOf clock p none (some e) read plain h (just he) hp = he
chosen-IsOf clock p none none read plain h ho hp = hp

module _ (go : Packages) (clock : Clock) (store : Option (List SourceConfig)) (zone : String)
    (p : ParsedMessage) (source_ip : String) where
  event_of-IsOf : IsOf clock p (event_of go clock store zone p source_ip)
  unfolding event_of from_structured_telemetry_json plain_event
  event_of-IsOf =
      let resolved = resolve store source_ip p.hostname p.app_name p.message in
      chosen-IsOf clock p (extract_structured_telemetry_json go.decoders p.message)
        (parse_opnsense_filterlog go.itoa go.read_csv clock zone p source_ip resolved)
        (from_structured_telemetry_json go.decoders clock resolved source_ip zone p)
        (plain_event go clock zone p source_ip resolved)
        (λ payload. record {
          id_new = refl;
          received_now = refl;
          protocol_syslog = refl;
          raw_kept = refl;
        })
        (parse_opnsense_filterlog-IsOf clock p go.itoa go.read_csv zone source_ip resolved)
        (record { id_new = refl; received_now = refl; protocol_syslog = refl; raw_kept = refl })

  -- Whatever the line says: the event that FromParsed makes of it has the new id, the time of its
  -- receipt, the protocol "syslog", and as its raw text that of the parse.
  pub from_parsed-IsOf : IsOf clock p (from_parsed go clock store zone p source_ip)
  unfolding from_parsed
  from_parsed-IsOf =
      let h = event_of-IsOf in
      let same =
        trace-apply go.regexps (record { parsed = p; source_ip = source_ip })
          (event_of go clock store zone p source_ip) in
      record {
        id_new = ap (λ (o : Origin). o.id) same ∙ h.id_new;
        received_now = ap (λ (o : Origin). o.received_at) same ∙ h.received_now;
        protocol_syslog = ap (λ (o : Origin). o.protocol) same ∙ h.protocol_syslog;
        raw_kept = ap (λ (o : Origin). o.raw) same ∙ h.raw_kept;
      }
