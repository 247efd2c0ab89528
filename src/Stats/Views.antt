-- ===== src/Stats/Views.antt =====
-- What the Stats of cmd/ot-collector/main.go show: Snapshot, Summary, Timeline, Sources and SourceCounters.
-- cloneMap copies a map, which is a value here. What sort.Slice and sort.Strings make of a list is a
-- parameter; a range over a map gives its entries in some order.
pub mod Top
use ot_collector.Prelude.{ℕ, String, List, [], ◌∷◌, Dict, take, count_of}
use ot_collector.Stats.{SourceStats, Stats}

pub record Snapshot : Type 0 where
  pub total_events : ℕ
  pub by_severity : Dict ℕ
  pub by_source_type : Dict ℕ
  pub by_category : Dict ℕ
  pub by_asset : Dict ℕ
  pub last_event_time : String
  pub stored_count : ℕ
  pub dropped_count : ℕ
  pub sampled_count : ℕ
  pub forwarded_count : ℕ
  pub failed_forward_count : ℕ
  pub event_rate_per_second : ℕ
  pub last_successful_forward : String

-- Snapshot
unfoldable pub snapshot : Stats → Snapshot
snapshot s = record {
  total_events = s.total;
  by_severity = s.by_severity;
  by_source_type = s.by_source_type;
  by_category = s.by_category;
  by_asset = s.by_asset;
  last_event_time = s.last_event_at;
  stored_count = s.stored_count;
  dropped_count = s.dropped_count;
  sampled_count = s.sampled_count;
  forwarded_count = s.forwarded_count;
  failed_forward_count = s.failed_forward_cnt;
  event_rate_per_second = s.rate_eps;
  last_successful_forward = s.last_forward_ok;
}

pub record Summary : Type 0 where
  pub total_events : ℕ
  pub by_source_type : Dict ℕ
  pub by_severity : Dict ℕ
  pub by_category : Dict ℕ
  pub top_assets : Dict ℕ
  pub top_commands : Dict ℕ
  pub stored_count : ℕ
  pub dropped_count : ℕ
  pub sampled_count : ℕ
  pub forwarded_count : ℕ
  pub failed_forward_count : ℕ
  pub by_rule : Dict ℕ
  pub by_decision : Dict ℕ
  pub event_rate_per_second : ℕ
  pub last_successful_forward_time : String

-- topN, with sort.Slice by descending count; items[:n] is all of it when there are no more.
unfoldable pub top_n : (Dict ℕ → Dict ℕ) → Dict ℕ → ℕ → Dict ℕ
top_n sort m n = take n (sort m)

-- Summary
unfoldable pub summary : (Dict ℕ → Dict ℕ) → Stats → Summary
summary sort s = record {
  total_events = s.total;
  by_source_type = s.by_source_type;
  by_severity = s.by_severity;
  by_category = s.by_category;
  top_assets = top_n sort s.by_asset 5;
  top_commands = top_n sort s.by_command 10;
  stored_count = s.stored_count;
  dropped_count = s.dropped_count;
  sampled_count = s.sampled_count;
  forwarded_count = s.forwarded_count;
  failed_forward_count = s.failed_forward_cnt;
  by_rule = s.by_rule;
  by_decision = s.by_decision;
  event_rate_per_second = s.rate_eps;
  last_successful_forward_time = s.last_forward_ok;
}

unfoldable pub keys_of : Dict ℕ → List String
keys_of [] = []
keys_of ((k, n) ∷ rest) = k ∷ keys_of rest

unfoldable pub counts_at : List String → Dict ℕ → Dict ℕ
counts_at [] m = []
counts_at (k ∷ ks) m = (k, count_of k m) ∷ counts_at ks m

-- Timeline, with sort.Strings
unfoldable pub timeline_of : (List String → List String) → Stats → Dict ℕ
timeline_of sort s = counts_at (sort (keys_of s.timeline)) s.timeline

unfoldable pub values_of : Dict SourceStats → List SourceStats
values_of [] = []
values_of ((k, v) ∷ rest) = v ∷ values_of rest

-- Sources, with sort.Slice by descending count
unfoldable pub sources_of : (List SourceStats → List SourceStats) → Stats → List SourceStats
sources_of sort s = sort (values_of s.sources)

-- SourceCounters
unfoldable pub source_counters : Stats → Dict ℕ
source_counters s = s.by_source_ip
