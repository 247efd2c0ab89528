-- ===== src/Storage/Query.antt =====
-- Which events a query of internal/storage/jsonl.go asks for.
use ot_collector.Prelude.{
  String, Bool, false, ◌&&◌, ◌||◌, Option, none, some, [], ◌∷◌, ℤ, str_eq, if◌then◌else◌, Dict,
}
use ot_collector.GoText.{to_lower, trim_space, replace_byte, contains, join, equal_fold}
use ot_collector.Event.{Event}

pub record EventQuery : Type 0 where
  pub limit : ℤ
  pub source_type : String
  pub severity : String
  pub category : String
  pub asset_ip : String
  pub search : String

unfoldable pub canonical_source_type : String → String
canonical_source_type s =
    let c = replace_byte "-" "_" (to_lower (trim_space s)) in
    if str_eq c "opnsense"
    then "firewall"
    else if str_eq c "fuxa"
    then "scada"
    else if str_eq c "openplc"
    then "plc"
    else c

-- A tag has the text in its key or in its value.
unfoldable pub any_tag : String → Dict String → Bool
any_tag s [] = false
any_tag s ((k, v) ∷ tags) = contains (to_lower k) s || contains (to_lower v) s || any_tag s tags

abbrev tags_have : String → Option (Dict String) → Bool
tags_have s none = false
tags_have s (some tags) = any_tag s tags

unfoldable pub matches_search : Event → String → Bool
matches_search e search =
    let s = to_lower search in
    let blob = to_lower (
      join
        (e.message ∷ e.raw ∷ e.asset_name ∷ e.asset_ip ∷ e.source_type ∷ e.severity
          ∷ e.event_category ∷ [])
        " ") in
    contains blob s || tags_have s e.tags

-- matchesQuery
unfoldable pub matches_query : Event → EventQuery → Bool
matches_query e q =
    (str_eq q.source_type ""
      || str_eq (canonical_source_type e.source_type) (canonical_source_type q.source_type))
    && (str_eq q.severity "" || equal_fold e.severity q.severity)
    && (str_eq q.category "" || equal_fold e.event_category q.category)
    && (str_eq q.asset_ip "" || equal_fold e.asset_ip q.asset_ip)
    && (str_eq q.search "" || matches_search e q.search)
