-- ===== src/Filter/Duplicates.antt =====
-- The duplicate window of a rule over a history of events.
use ot_collector.Prelude.{
  ℕ, ◌+◌, ◌*◌, ◌^◌, ◌≤◌, ◌<◌, ◌≡◌, sym, ◌∙◌, inl, inr, true, false, some, arith, All, str_eq, pos,
  lookup-insert_self, is_pos, lt→ltb,
}
use ot_collector.Event.{Event}
use ot_collector.Config.Rules.{RuleConfig}
use ot_collector.Filter.{
  Engine, Decision, drop_decision, limit_rate, suppress_duplicate, fire, evaluate, seen_within,
}
use ot_collector.Filter.FirstMatch.{first_match, evaluate-first_match}
use ot_collector.Filter.Memory.{
  key_of, SeenBetween, limit_cache, limit_rules, duplicate_rules, fire_state, after_duplicate_cache,
  run_sees,
}
use ot_collector.Filter.Rates.{History, run, fire_reason}

-- An event that the rate limit lets through is remembered at its time.
fire_remembers :
    (e : Engine) (evt : Event) (r : RuleConfig) (now to : ℕ) {w : ℕ}
    → r.dedup_window_seconds ≡ pos w
    → 0 < w
    → now ≤ to
    → (limit_rate e evt r now).1 ≡ false
    → SeenBetween (key_of r evt) now to (fire e evt r now).0
      × ((fire e evt r now).0.rules ≡ e.rules)
unfolding suppress_duplicate
fire_remembers e evt r now to window some_window le under = elim (fire_state e evt r now) [
  | inl (over, same) ↦ cc
  | inr (_, same) ↦
      let e₁ = (limit_rate e evt r now).0 in
      let p = suppress_duplicate e₁ evt r now in
      let (cache, rules) = after_duplicate_cache p evt r in
      let on : is_pos r.dedup_window_seconds ≡ true = rw window (lt→ltb _ _ some_window) in
      rw same (
        record {
          last_seen = now;
          found = rw cache (rw on (lookup-insert_self (key_of r evt) now e₁.dedup_cache));
          late = omega arith;
          early = le;
        },
        rules ∙ duplicate_rules e₁ evt r now ∙ limit_rules e evt r now,
      )
]

within_window :
    (last now w : ℕ)
    → w * 1_000_000_000 < 2 ^ 63
    → last ≤ now
    → now ≤ last + w * 1_000_000_000
    → seen_within (some last) now (pos w) ≡ true
within_window last now w small le soon = ground arith

-- The decision neither stores nor forwards nor shows.
pub record IsGone (d : Decision) : Type 0 where
  pub dropped : d.drop ≡ true
  pub not_stored : d.store ≡ false
  pub not_forwarded : d.forward ≡ false
  pub not_shown : d.show ≡ false

fire_suppresses :
    (e : Engine) (evt : Event) (r : RuleConfig) (from now : ℕ) {w : ℕ}
    → r.dedup_window_seconds ≡ pos w
    → 0 < w
    → w * 1_000_000_000 < 2 ^ 63
    → now ≤ from + w * 1_000_000_000
    → SeenBetween (key_of r evt) from now e
    → IsGone (fire e evt r now).1
unfolding suppress_duplicate drop_decision
fire_suppresses e evt r from now {w} window some_window small soon s =
    elim (fire_state e evt r now) [
      | inl (over, same) ↦ rw same (ground arith)
      | inr (_, same) ↦
          let on : is_pos r.dedup_window_seconds ≡ true = rw window (lt→ltb _ _ some_window) in
          let seen : seen_within (some s.last_seen) now (pos w) ≡ true =
            within_window s.last_seen now w small s.early (omega (arith, s.late)) in
          rw same (rw (on, limit_cache e evt r now, s.found, window, seen) (ground arith))
    ]

-- A duplicate is suppressed. An event that the rate limit of its rule lets through at the time
-- `from` makes a later event with the same rule and key, within the window of the rule, be neither
-- stored nor forwarded nor shown, whatever events come in between. (The window is above 0 and below
-- 292 years, where its nanoseconds overflow.)
pub evaluate_suppresses :
    (e : Engine) (evt evt' : Event) (from now : ℕ) (h : History) (r : RuleConfig) {w : ℕ}
    → first_match evt e.rules ≡ some r
    → first_match evt' e.rules ≡ some r
    → key_of r evt ≡ key_of r evt'
    → r.dedup_window_seconds ≡ pos w
    → 0 < w
    → w * 1_000_000_000 < 2 ^ 63
    → from ≤ now
    → now ≤ from + w * 1_000_000_000
    → All (λ s. (from ≤ s.0) × (s.0 ≤ now)) h
    → str_eq (evaluate e (some evt) from).1.reason "rule_rate_limit" ≡ false
    → IsGone (evaluate (run (evaluate e (some evt) from).0 h) (some evt') now).1
evaluate_suppresses e evt evt' from now h r found found' keys window some_window small le soon
      between passed =
    let e₁ = (evaluate e (some evt) from).0 in
    let under : (limit_rate e evt r from).1 ≡ false =
      sym (fire_reason e evt r from) ∙ (rw (evaluate-first_match e evt from, found) at passed) in
    let (s, kept) : SeenBetween (key_of r evt) from now e₁ × (e₁.rules ≡ e.rules) =
      rw (evaluate-first_match e evt from, found)
        (fire_remembers e evt r from now window some_window le under) in
    let (s', kept') = run_sees (key_of r evt) from now e₁ h between s in
    let same : first_match evt' (run e₁ h).rules ≡ some r = rw (kept', kept) found' in
    rw (evaluate-first_match (run e₁ h) evt' now, same)
      (fire_suppresses (run e₁ h) evt' r from now window some_window small soon (rw keys at s'))
