-- ===== src/Normalizers/Apply/Whole.antt =====
-- What Apply leaves, whatever the event and whatever the regular expressions match.
use ot_collector.Prelude.{
  ◌≡◌, refl, ap, ◌∙◌, String, Bool, false, str_eq, if◌then◌else◌, Bool-cases, inl, inr,
  Option-cases,
}
use ot_collector.Event.{Event, set_tag, make_tags, or_default}
use ot_collector.Normalizers.{
  Context, ensure_base_tags, canonicalize_source_identity, normalize_severity, sourcetype_of,
  set_sourcetype, mark_alert_candidate, set_decision_hint, finish,
}
use ot_collector.Normalizers.Completeness.{is_odd, normalize_severity-odd, finish_complete}
use ot_collector.Normalizers.Apply.{Regexps, prepare, apply_sources, apply}
use ot_collector.Normalizers.Apply.Kept.{
  Origin, origin, Kept, Kept-refl, Kept-trans, Kept-if, Kept-set_tag,
}
use ot_collector.Normalizers.Apply.Words.{
  Kept-apply_firewall, Kept-apply_plc, Kept-apply_ews, Kept-apply_opcua, Kept-apply_gds_agent,
  Kept-apply_fuxa_gds_client,
}
use ot_collector.Normalizers.Apply.Lines.{Kept-apply_scada}

-- Where an event comes from, less its source type, which Apply may guess.
abbrev untyped : Origin → Origin
untyped o = record o { source_type = "" }

abbrev pub trace : Event → Origin
trace e = untyped (origin e)

trace_of : {e f : Event} → Kept e f → trace f ≡ trace e
trace_of k = ap untyped k.same

pub Kept-make_tags : (e : Event) → Kept e (make_tags e)
unfolding make_tags
Kept-make_tags e = elim (Option-cases e.tags) [
  | inl none_made ↦ rw none_made (record { same = refl; full = λ h. h })
  | inr (m, made) ↦ rw made (Kept-refl _)
]

pub Kept-ensure_base_tags : (e : Event) → Kept e (ensure_base_tags e)
unfolding ensure_base_tags
Kept-ensure_base_tags e = Kept-trans (Kept-make_tags e) (
    Kept-trans (Kept-set_tag "parser_version" _ _) (
      Kept-trans (Kept-set_tag "normalized" _ _) (
        Kept-trans (Kept-set_tag "normalization_source" _ _) (Kept-set_tag "siem_index_hint" _ _))))

trace-canonicalize_source_identity :
    (ctx : Context) (e : Event) → trace (canonicalize_source_identity ctx e) ≡ trace e
unfolding canonicalize_source_identity
trace-canonicalize_source_identity ctx e = refl

tagged_trace :
    (b : Bool) (k v : String) (e : Event) → trace (if b then set_tag k v e else e) ≡ trace e
tagged_trace b k v e = trace_of (Kept-if b (Kept-set_tag k v e) (Kept-refl e))

trace-normalize_severity : (e : Event) → trace (normalize_severity e) ≡ trace e
unfolding normalize_severity
trace-normalize_severity e = tagged_trace _ _ _ _

trace-prepare : (ctx : Context) (e : Event) → trace (prepare ctx e) ≡ trace e
unfolding prepare
trace-prepare ctx e =
    trace-normalize_severity _
    ∙ trace-canonicalize_source_identity ctx (ensure_base_tags e)
    ∙ trace_of (Kept-ensure_base_tags e)

Kept-marks : (e : Event) → Kept e (set_decision_hint (mark_alert_candidate (set_sourcetype e)))
unfolding set_decision_hint mark_alert_candidate set_sourcetype
Kept-marks e =
    Kept-trans
      (Kept-if (str_eq (sourcetype_of e.source_type) "") (Kept-refl e) (Kept-set_tag _ _ e))
      (Kept-trans (Kept-if _ (Kept-set_tag "alert_candidate" "true" _) (Kept-refl _)) (
        Kept-if _ (Kept-refl _) (
          Kept-if _ (Kept-set_tag "collector_decision_hint" "store_forward" _)
            (Kept-set_tag "collector_decision_hint" "sample_or_drop" _))))

trace-finish : (ctx : Context) (e : Event) → trace (finish ctx e) ≡ trace e
unfolding finish
trace-finish ctx e = trace_of (Kept-marks e)

or_default-odd : (s : String) → is_odd s ≡ false → is_odd (or_default s "info") ≡ false
unfolding or_default
or_default-odd s h = elim (Bool-cases (str_eq s "")) [ inl e ↦ rw e refl | inr e ↦ rw (e, h) refl ]

finish-odd :
    (ctx : Context) (e : Event) → is_odd e.severity ≡ false → is_odd (finish ctx e).severity ≡ false
unfolding finish
finish-odd ctx e h = or_default-odd _ ((Kept-marks e).full h)

module _ (re : Regexps) where
  pub Kept-apply_sources : (e : Event) → Kept e (apply_sources re e)
  unfolding apply_sources
  Kept-apply_sources e = Kept-trans (Kept-apply_firewall e) (
      Kept-trans (Kept-apply_plc re.strip re.user_of _) (
        Kept-trans (Kept-apply_scada re.scada re.strip _) (
          Kept-trans (Kept-apply_ews re.strip _) (
            Kept-trans (Kept-apply_opcua re.strip _) (
              Kept-trans (Kept-apply_gds_agent re.strip _)
                (Kept-apply_fuxa_gds_client re.strip _))))))

  -- Whatever the regular expressions match, Apply changes neither the id of an event nor its
  -- two times, its zone, its protocol and its raw line.
  pub trace-apply : (ctx : Context) (e : Event) → trace (apply re ctx e) ≡ trace e
  unfolding apply
  trace-apply ctx e =
      trace-finish ctx _ ∙ trace_of (Kept-apply_sources (prepare ctx e)) ∙ trace-prepare ctx e

  -- Whatever the event and the regular expressions, Apply leaves an event whose message,
  -- category, source type, asset name and severity are not empty, and whose severity is none of the
  -- short spellings "warn", "war", "err" and "inf".
  pub apply_complete :
      (ctx : Context) (e : Event)
      → let f = apply re ctx e in
        (str_eq f.message "" ≡ false)
        × (str_eq f.event_category "" ≡ false)
        × (str_eq f.source_type "" ≡ false)
        × (str_eq f.asset_name "" ≡ false)
        × (is_odd f.severity ≡ false)
  unfolding apply prepare
  apply_complete ctx e =
      let (m, c, t, n, _) = finish_complete ctx (apply_sources re (prepare ctx e)) in
      (
        m,
        c,
        t,
        n,
        finish-odd ctx _ ((Kept-apply_sources (prepare ctx e)).full (normalize_severity-odd _)),
      )
