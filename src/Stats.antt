-- ===== src/Stats.antt =====
-- The counters of cmd/ot-collector/main.go (type Stats). Each method holds the mutex, and is a
-- function from the counters to the next. The seconds of time.Now() and the minutes of a time
-- stamp are arguments.
pub mod Totals
pub mod Views
use ot_collector.Prelude.{
  ℕ, ◌+◌, String, Bool, true, false, Option, none, some, List, [], ◌∷◌, str_eq, if◌then◌else◌, ◌==◌,
  Dict, lookup, insert, bump,
}
use ot_collector.Event.{Event, tag}

pub record SourceStats : Type 0 where
  pub asset_name : String
  pub asset_ip : String
  pub source_type : String
  pub event_count : ℕ
  pub last_seen : String

pub record Stats : Type 0 where
  pub total : ℕ
  pub stored_count : ℕ
  pub dropped_count : ℕ
  pub sampled_count : ℕ
  pub forwarded_count : ℕ
  pub failed_forward_cnt : ℕ
  pub by_severity : Dict ℕ
  pub by_source_type : Dict ℕ
  pub by_category : Dict ℕ
  pub by_asset : Dict ℕ
  pub by_command : Dict ℕ
  pub by_rule : Dict ℕ
  pub by_decision : Dict ℕ
  pub by_source_ip : Dict ℕ
  pub timeline : Dict ℕ
  pub sources : Dict SourceStats
  pub last_event_at : String
  pub last_forward_ok : String
  pub rate_second : ℕ
  pub rate_count : ℕ
  pub rate_eps : ℕ

-- NewStats
unfoldable pub new_stats : Stats
new_stats = record {
  total = 0;
  stored_count = 0;
  dropped_count = 0;
  sampled_count = 0;
  forwarded_count = 0;
  failed_forward_cnt = 0;
  by_severity = [];
  by_source_type = [];
  by_category = [];
  by_asset = [];
  by_command = [];
  by_rule = [];
  by_decision = [];
  by_source_ip = [];
  timeline = [];
  sources = [];
  last_event_at = "";
  last_forward_ok = "";
  rate_second = 0;
  rate_count = 0;
  rate_eps = 0;
}

-- if k != "" { m[k]++ }
abbrev pub bump_named : String → Dict ℕ → Dict ℕ
bump_named k m = if str_eq k "" then m else bump k m

-- bumpRate
unfoldable pub bump_rate : ℕ → Stats → Stats
bump_rate sec s =
    if s.rate_second == sec
    then record s { rate_count = s.rate_count + 1 }
    else record s { rate_second = sec; rate_eps = s.rate_count; rate_count = 1 }

abbrev blank_source : SourceStats
blank_source = record {
  asset_name = "";
  asset_ip = "";
  source_type = "";
  event_count = 0;
  last_seen = "";
}

-- The entry of s.sources for an event.
unfoldable pub seen_source : Event → Dict SourceStats → Dict SourceStats
seen_source e sources =
    let k = if str_eq e.asset_ip "" then e.asset_name else e.asset_ip in
    let ss : SourceStats = elim (lookup k sources) [ none ↦ blank_source | some ss ↦ ss ] in
    insert k
      (record {
        asset_name = e.asset_name;
        asset_ip = e.asset_ip;
        source_type = e.source_type;
        event_count = ss.event_count + 1;
        last_seen = e.received_at;
      })
      sources

-- AddStored; `minute` is parseMinuteBucket(e.ReceivedAt).
unfoldable pub add_stored : ℕ → String → Event → Stats → Stats
add_stored sec minute e s = bump_rate sec (record s {
  total = s.total + 1;
  stored_count = s.stored_count + 1;
  by_severity = bump e.severity s.by_severity;
  by_source_type = bump e.source_type s.by_source_type;
  by_category = bump e.event_category s.by_category;
  by_asset = bump e.asset_name s.by_asset;
  by_source_ip = bump_named e.asset_ip s.by_source_ip;
  by_command = bump_named (tag e "browse_name") s.by_command;
  timeline = bump minute s.timeline;
  sources = seen_source e s.sources;
  last_event_at = e.received_at;
})

-- AddDecision
unfoldable pub add_decision : String → String → Bool → Stats → Stats
add_decision decision rule_id sampled s = record s {
  by_decision = bump decision s.by_decision;
  by_rule = bump_named rule_id s.by_rule;
  sampled_count = if sampled then s.sampled_count + 1 else s.sampled_count;
}

-- AddDropped
unfoldable pub add_dropped : ℕ → String → String → Bool → Stats → Stats
add_dropped sec rule_id reason sampled s = bump_rate sec (record s {
  total = s.total + 1;
  dropped_count = s.dropped_count + 1;
  by_decision = bump_named reason (bump "drop" s.by_decision);
  by_rule = bump_named rule_id s.by_rule;
  sampled_count = if sampled then s.sampled_count + 1 else s.sampled_count;
})

-- AddForwardResult
unfoldable pub add_forward_result : Bool → String → Stats → Stats
add_forward_result true when s = record s {
  forwarded_count = s.forwarded_count + 1;
  last_forward_ok = when;
}
add_forward_result false when s = record s { failed_forward_cnt = s.failed_forward_cnt + 1 }
