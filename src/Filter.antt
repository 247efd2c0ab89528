-- ===== src/Filter.antt =====
-- internal/filter/engine.go: the rule engine. Its mutexes make each call of Evaluate one step, so
-- a call is a function from the engine's state to the next; `now` is time.Now() in nanoseconds.
-- `dedup_cache`, `rate_by_source` and `sample_counts` are the three maps of the engine.
pub mod Match
pub mod FirstMatch
pub mod Rates
pub mod Memory
pub mod Duplicates
pub mod Sampling
use ot_collector.Prelude.{
  ℕ, ◌+◌, ◌-◌, ◌*◌, ◌/◌, ◌%◌, ◌^◌, String, Bool, true, false, ◌&&◌, ◌||◌, not, Option, none, some,
  List, [], ◌∷◌, ℤ, pos, is_pos, sub_ℕ, leb_ℤ, pos_part, int64, ltb, leb, ◌==◌, str_eq,
  if◌then◌else◌, Dict, lookup, insert, bump, count_of,
}
use ot_collector.GoText.{to_lower, contains}
use ot_collector.Float.{Float64, le_zero, tenth, sample_to_keep_every}
use ot_collector.Event.{Event}
use ot_collector.Config.Rules.{RuleConfig}
use Match.{operation_for, matches, rule_show_in_ui, rate_key, dedup_key, sample_key}

pub record Decision : Type 0 where
  pub store : Bool
  pub forward : Bool
  pub show : Bool
  pub drop : Bool
  pub sampled : Bool
  pub matched_rule_id : String
  pub reason : String

pub record RateState : Type 0 where
  pub second : ℕ
  pub count : ℕ

pub record Engine : Type 0 where
  pub rules : List RuleConfig
  pub dedup_cache : Dict ℕ
  pub rate_by_source : Dict RateState
  pub sample_counts : Dict ℕ

-- New
unfoldable pub new : Engine
new = record { rules = []; dedup_cache = []; rate_by_source = []; sample_counts = [] }

-- SetRules
unfoldable pub set_rules : List RuleConfig → Engine → Engine
set_rules rules e = record e { rules = rules }

unfoldable pub drop_decision : String → String → Decision
drop_decision reason rule_id = record {
  store = false;
  forward = false;
  show = false;
  drop = true;
  sampled = contains reason "sample";
  matched_rule_id = rule_id;
  reason = reason;
}

-- The decisions that are not drops made by `drop_decision`.
abbrev decide : Bool → Bool → Bool → RuleConfig → String → Decision
decide store forward show r reason = record {
  store = store;
  forward = forward;
  show = show;
  drop = false;
  sampled = false;
  matched_rule_id = r.id;
  reason = reason;
}

unfoldable pub default_decision : Decision
default_decision = record {
  store = true;
  forward = false;
  show = true;
  drop = false;
  sampled = false;
  matched_rule_id = "default-store-only";
  reason = "default_store_only";
}

-- now.Unix()
abbrev pub unix : ℕ → ℕ
unix now = now / 1_000_000_000

-- rs := e.rateBySource[key]; if rs.second != sec { rs.second = sec; rs.count = 0 }; rs.count
unfoldable pub rate_count : String → ℕ → Engine → ℕ
rate_count key sec e = elim (lookup key e.rate_by_source) [
  | none ↦ 0
  | some rs ↦ if rs.second == sec then rs.count else 0
]

-- The rate limit of the matched rule: the state with the event counted, and whether it is over.
unfoldable pub limit_rate : Engine → Event → RuleConfig → ℕ → Engine × Bool
limit_rate e evt r now =
    if is_pos r.rate_limit_per_second
    then (let key = rate_key r evt in
        let n = rate_count key (unix now) e + 1 in
        (
          record e {
            rate_by_source = insert key (record { second = unix now; count = n }) e.rate_by_source;
          },
          ltb (pos_part r.rate_limit_per_second) n,
        ))
    else (e, false)

-- now.Sub(lastSeen) <= time.Duration(window) * time.Second, the product as an int64
abbrev pub within : ℕ → ℕ → ℤ → Bool
within now last_seen window = leb_ℤ (sub_ℕ now last_seen) (int64 (pos_part window * 1_000_000_000))

abbrev pub seen_within : Option ℕ → ℕ → ℤ → Bool
seen_within none now window = false
seen_within (some last_seen) now window = within now last_seen window

-- The duplicate window of the matched rule: the state with the event seen, and whether it was
-- seen before within the window.
unfoldable pub suppress_duplicate : Engine → Event → RuleConfig → ℕ → Engine × Bool
suppress_duplicate e evt r now =
    if is_pos r.dedup_window_seconds
    then (let key = dedup_key r evt (operation_for evt) in
        (
          record e { dedup_cache = insert key now e.dedup_cache },
          seen_within (lookup key e.dedup_cache) now r.dedup_window_seconds,
        ))
    else (e, false)

-- keepEvery <= 1 || e.sampleCounts[key]%keepEvery == 1
abbrev pub is_kept : ℤ → ℕ → Bool
is_kept keep_every n = leb_ℤ keep_every (pos 1) || n % pos_part keep_every == 1

-- case "sample"
unfoldable pub sample : Engine → Event → RuleConfig → Engine × Decision
sample e evt r =
    let rate = if le_zero r.sample_rate then tenth else r.sample_rate in
    let key = sample_key r evt in
    let n = count_of key e.sample_counts + 1 in
    (
      record e { sample_counts = bump key e.sample_counts },
      (if is_kept (sample_to_keep_every rate) n
          then record (decide r.store_locally r.forward_to_dmz (rule_show_in_ui r) r
              "rule_sample_keep") { sampled = true }
          else drop_decision "rule_sample_drop" r.id),
    )

-- The cases of the switch on the action; any other text is `keep`.
pub data Action : Type 0 where
  dropping forwarding storing storing_and_forwarding sampling keeping : Action

unfoldable pub action_of : String → Action
action_of a =
    if str_eq a "drop"
    then dropping
    else if str_eq a "forward_only"
    then forwarding
    else if str_eq a "store_only"
    then storing
    else if str_eq a "store_and_forward"
    then storing_and_forwarding
    else if str_eq a "sample"
    then sampling
    else keeping

unfoldable pub act_as : Action → Engine → Event → RuleConfig → Engine × Decision
act_as dropping e evt r = (
  e,
  record (decide r.store_locally false (rule_show_in_ui r && r.store_locally) r "rule_drop") {
    drop = true;
  },
)
act_as forwarding e evt r = (e, decide false true (rule_show_in_ui r) r "rule_forward_only")
act_as storing e evt r = (e, decide true false (rule_show_in_ui r) r "rule_store_only")
act_as storing_and_forwarding e evt r =
    (e, decide true true (rule_show_in_ui r) r "rule_store_and_forward")
act_as sampling e evt r = sample e evt r
act_as keeping e evt r =
    (e, decide r.store_locally r.forward_to_dmz (rule_show_in_ui r) r "rule_keep")

-- switch strings.ToLower(rule.Action)
unfoldable pub act : Engine → Event → RuleConfig → Engine × Decision
act e evt r = act_as (action_of (to_lower r.action)) e evt r

abbrev after_duplicate : Engine × Bool → Event → RuleConfig → Engine × Decision
after_duplicate (e, duplicate) evt r =
    if duplicate then (e, drop_decision "rule_duplicate_window" r.id) else act e evt r

abbrev after_rate : Engine × Bool → Event → RuleConfig → ℕ → Engine × Decision
after_rate (e, over) evt r now =
    if over
    then (e, drop_decision "rule_rate_limit" r.id)
    else after_duplicate (suppress_duplicate e evt r now) evt r

-- The body of the loop of applyRules, for the rule that matches.
unfoldable pub fire : Engine → Event → RuleConfig → ℕ → Engine × Decision
fire e evt r now = after_rate (limit_rate e evt r now) evt r now

-- The loop of applyRules.
unfoldable pub apply_rules : Engine → Event → List RuleConfig → ℕ → Engine × Decision
apply_rules e evt [] now = (e, default_decision)
apply_rules e evt (r ∷ rules) now =
    if matches r evt then fire e evt r now else apply_rules e evt rules now

-- Evaluate; none is the nil event.
unfoldable pub evaluate : Engine → Option Event → ℕ → Engine × Decision
evaluate e none now = (e, record default_decision { reason = "nil_event_default" })
evaluate e (some evt) now = apply_rules e evt e.rules now
