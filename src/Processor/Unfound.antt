-- ===== src/Processor/Unfound.antt =====
-- Source types that normalizeSourceType of cmd/ot-collector/main.go gives another name and
-- canonicalSourceType of internal/storage/jsonl.go leaves alone.
use ot_collector.Prelude.{
  ◌≡◌, refl, String, Bool, true, false, str_eq, Bool-cases, inl, inr, arith, ◌∙◌, sym, ap, eq_iff,
}
use ot_collector.GoText.{to_lower, trim_space, replace_byte}
use ot_collector.Event.{Event, set_tag, make_tags}
use ot_collector.Filter.{Decision}
use ot_collector.Storage.Query.{EventQuery, canonical_source_type, matches_query}
use ot_collector.Processor.{World, baseline, enrich, set_tag_if}
use ot_collector.Processor.Labels.{normalize_source_type}

-- A source type in lower case, without blanks around it and with underscores.
abbrev pub cleaned : String → String
cleaned s = replace_byte "-" "_" (to_lower (trim_space s))

-- Names that are changed on the way in and left alone in a query, with the new name.
pub data IsRenamed : String → String → Type 0 where
  nozomi : IsRenamed "nozomi" "ids"
  fuxa_gds_client : IsRenamed "fuxa_gds_client" "scada_gds_client"
  scada_gds : IsRenamed "scada_gds" "scada_gds_client"
  scada_gds_helper : IsRenamed "scada_gds_helper" "scada_gds_client"

renamed : (s old new : String) → IsRenamed old new → cleaned s ≡ old → normalize_source_type s ≡ new
unfolding normalize_source_type
renamed s _ _ nozomi e = rw e
renamed s _ _ fuxa_gds_client e = rw e
renamed s _ _ scada_gds e = rw e
renamed s _ _ scada_gds_helper e = rw e

unfound :
    (s old new : String)
    → IsRenamed old new
    → cleaned s ≡ old
    → str_eq (canonical_source_type new) (canonical_source_type s) ≡ false
unfolding canonical_source_type to_lower trim_space replace_byte
unfound s _ _ nozomi e = rw e
unfound s _ _ fuxa_gds_client e = rw e
unfound s _ _ scada_gds e = rw e
unfound s _ _ scada_gds_helper e = rw e

not_blank : (old new : String) → IsRenamed old new → str_eq old (cleaned "") ≡ false
unfolding to_lower trim_space replace_byte
not_blank _ _ nozomi = refl
not_blank _ _ fuxa_gds_client = refl
not_blank _ _ scada_gds = refl
not_blank _ _ scada_gds_helper = refl

asked_something : (s old new : String) → IsRenamed old new → cleaned s ≡ old → str_eq s "" ≡ false
asked_something s old new r e = elim (Bool-cases (str_eq s "")) [
  | inr other ↦ other
  | inl blank ↦
      let same = sym e ∙ ap cleaned ((eq_iff s "").0 blank) in
      let equal = (eq_iff old (cleaned "")).1 same in let differ = not_blank old new r in cc
]

set_tag_type : (k v : String) (e : Event) → (set_tag k v e).source_type ≡ e.source_type
unfolding set_tag make_tags
set_tag_type k v e = ground arith

set_tag_if_type :
    (b : Bool) (k v : String) (e : Event) → (set_tag_if b k v e).source_type ≡ e.source_type
set_tag_if_type true k v e = set_tag_type k v e
set_tag_if_type false k v e = refl

enrich_type :
    (path : String) (d : Decision) (fw : Bool) (e : Event)
    → (enrich path d fw e).source_type ≡ e.source_type
unfolding enrich
enrich_type path d fw e = simp (set_tag_if_type, set_tag_type)

baseline_type :
    (w : World) (zone : String) (e : Event)
    → (baseline w zone e).source_type ≡ normalize_source_type e.source_type
unfolding baseline make_tags
baseline_type w zone e = ground arith

-- An event that comes with one of the source types "nozomi", "fuxa_gds_client", "scada_gds" and
-- "scada_gds_helper", in any spelling, is not found by it: whatever the rest of the event and the
-- decision, a query for that source type, in any spelling, does not match the event as it is stored.
pub unfound_by_own_type :
    (w : World) (zone path : String) (d : Decision) (fw : Bool) (e : Event) (q : EventQuery)
    (old new : String)
    → IsRenamed old new
    → cleaned e.source_type ≡ old
    → cleaned q.source_type ≡ old
    → matches_query (enrich path d fw (baseline w zone e)) q ≡ false
unfolding matches_query
unfound_by_own_type w zone path d fw e q old new r came asked = rw (
  enrich_type path d fw (baseline w zone e),
  baseline_type w zone e,
  renamed e.source_type old new r came,
  asked_something q.source_type old new r asked,
  unfound q.source_type old new r asked,
)
