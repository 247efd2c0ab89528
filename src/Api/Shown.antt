-- ===== src/Api/Shown.antt =====
-- handleSources of internal/api/handlers.go, which shows the seen and the configured sources together,
-- and handleFilterConfig.
use ot_collector.Prelude.{
  ℕ, ◌≡◌, refl, ◌&&◌, String, not, Option, none, some, List, [], ◌∷◌, str_eq, if◌then◌else◌, Dict,
  lookup, insert, lookup-insert, arith, eq_iff, ◌∙◌, ap,
}
use ot_collector.Config.Sources.{SourceConfig}
use ot_collector.Stats.{SourceStats}
use ot_collector.Stats.Views.{sources_of, values_of}
use ot_collector.Processor.Settings.{current_filter_config, update_filter_config}
use ot_collector.Api.{Api, Method, get, post}

-- The seen sources by their address; one without is left out.
unfoldable pub seen_by_ip : List SourceStats → Dict SourceStats → Dict SourceStats
seen_by_ip [] by_ip = by_ip
seen_by_ip (s ∷ seen) by_ip =
    seen_by_ip seen (if str_eq s.asset_ip "" then by_ip else insert s.asset_ip s by_ip)

-- What is shown for a configured source, from what is there for its address; a count is of one of
-- the types that the type assertions try.
unfoldable pub shown_source : SourceConfig → Option SourceStats → SourceStats
shown_source src existing = record {
  asset_name = src.name;
  asset_ip = src.ip;
  source_type = src.type;
  event_count = elim existing [ none ↦ 0 | some e ↦ e.event_count ];
  last_seen = elim existing [ none ↦ "" | some e ↦ e.last_seen ];
}

-- The loop over the configured sources.
unfoldable pub with_configured : List SourceConfig → Dict SourceStats → Dict SourceStats
with_configured [] by_ip = by_ip
with_configured (src ∷ rest) by_ip =
    with_configured rest (insert src.ip (shown_source src (lookup src.ip by_ip)) by_ip)

unfoldable pub by_ip_of : (List SourceStats → List SourceStats) → Api → Dict SourceStats
by_ip_of sort a =
    with_configured a.source_store.items (seen_by_ip (sources_of sort a.processor.stats) [])

-- handleSources, with the sort of Sources
unfoldable pub handle_sources : (List SourceStats → List SourceStats) → Api → List SourceStats
handle_sources sort a = values_of (by_ip_of sort a)

-- The last source of a list with the address.
unfoldable last_at : String → List SourceConfig → Option SourceConfig
last_at ip [] = none
last_at ip (src ∷ rest) = elim (last_at ip rest) [
  | some later ↦ some later
  | none ↦ if str_eq src.ip ip then some src else none
]

unfoldable last_seen_at : String → List SourceStats → Option SourceStats
last_seen_at ip [] = none
last_seen_at ip (s ∷ seen) = elim (last_seen_at ip seen) [
  | some later ↦ some later
  | none ↦ if not (str_eq s.asset_ip "") && str_eq s.asset_ip ip then some s else none
]

-- A configured source goes before one that is only seen.
unfoldable merged : Option SourceConfig → Option SourceStats → Option SourceStats
merged none existing = existing
merged (some src) existing = some (shown_source src existing)

-- What is there for the address.
abbrev or_before : Option SourceStats → Option SourceStats → Option SourceStats
or_before found before = elim found [ none ↦ before | some s ↦ some s ]

or_before-none : (found : Option SourceStats) → or_before found none ≡ found
or_before-none none = refl
or_before-none (some s) = refl

lookup-seen_by_ip :
    (ip : String) (seen : List SourceStats) (by_ip : Dict SourceStats)
    → lookup ip (seen_by_ip seen by_ip) ≡ or_before (last_seen_at ip seen) (lookup ip by_ip)
unfolding seen_by_ip last_seen_at
lookup-seen_by_ip ip [] by_ip = refl
lookup-seen_by_ip ip (s ∷ seen) by_ip =
    let later =
      lookup-seen_by_ip ip seen
        (if str_eq s.asset_ip "" then by_ip else insert s.asset_ip s by_ip) in
    let set = lookup-insert s.asset_ip ip s by_ip in
    ground (arith, later, set, eq_iff s.asset_ip "", eq_iff s.asset_ip ip)

shown_source_again :
    (later src : SourceConfig) (existing : Option SourceStats)
    → shown_source later (some (shown_source src existing)) ≡ shown_source later existing
unfolding shown_source
shown_source_again later src existing = refl

merged_step :
    (src : SourceConfig) (later : Option SourceConfig) (ip : String) (by_ip : Dict SourceStats)
    → merged later (
        if str_eq src.ip ip then some (shown_source src (lookup src.ip by_ip)) else lookup ip by_ip)
      ≡ merged
          (elim later [
            | some found ↦ some found
            | none ↦ if str_eq src.ip ip then some src else none
          ])
          (lookup ip by_ip)
unfolding merged
merged_step src none ip by_ip = ground (arith, eq_iff src.ip ip)
merged_step src (some found) ip by_ip =
    ground (arith, eq_iff src.ip ip, shown_source_again found src (lookup src.ip by_ip))

seen_alone :
    (ip : String) (seen : List SourceStats) → lookup ip (seen_by_ip seen []) ≡ last_seen_at ip seen
unfolding lookup
seen_alone ip seen = lookup-seen_by_ip ip seen [] ∙ or_before-none (last_seen_at ip seen)

lookup-with_configured :
    (ip : String) (all : List SourceConfig) (by_ip : Dict SourceStats)
    → lookup ip (with_configured all by_ip) ≡ merged (last_at ip all) (lookup ip by_ip)
unfolding with_configured last_at merged
lookup-with_configured ip [] by_ip = refl
lookup-with_configured ip (src ∷ rest) by_ip =
    let value = shown_source src (lookup src.ip by_ip) in
    let later = lookup-with_configured ip rest (insert src.ip value by_ip) in
    let set = lookup-insert src.ip ip value by_ip in
    later ∙ rw set (merged_step src (last_at ip rest) ip by_ip)

-- What is shown for an address: the last configured source that has it, with the count and the time
-- of the last seen one, or, if no configured source has it, the last seen one as it is; nothing of
-- an asset that was seen with no address.
lookup-by_ip_of :
    (sort : List SourceStats → List SourceStats) (a : Api) (ip : String)
    → lookup ip (by_ip_of sort a)
      ≡ merged
          (last_at ip a.source_store.items)
          (last_seen_at ip (sources_of sort a.processor.stats))
unfolding by_ip_of
lookup-by_ip_of sort a ip =
    let seen = sources_of sort a.processor.stats in
    lookup-with_configured ip a.source_store.items (seen_by_ip seen [])
    ∙ ap (merged (last_at ip a.source_store.items)) (seen_alone ip seen)

-- handleFilterConfig; a payload that does not decode is none.
unfoldable pub handle_filter_config : Method → Option (Dict String) → ℕ × Option (Dict String)
handle_filter_config get payload = (200, some current_filter_config)
handle_filter_config post none = (400, none)
handle_filter_config post (some cfg) = (200, some (update_filter_config cfg))
handle_filter_config _ payload = (405, none)
