-- ===== src/Filter/Rates.antt =====
-- The rate limit of a rule over a history of events.
use ot_collector.Prelude.{
  ℕ, ◌+◌, ◌-◌, ◌≤◌, ◌<◌, ◌≡◌, refl, sym, ◌∙◌, inl, inr, String, Bool, true, false, not, ◌&&◌, none,
  some, List, [], ◌∷◌, arith, All, Bool-cases, Option-cases, ==_iff, str_eq, eq_iff, if◌then◌else◌,
  pos_part, ◌==◌, lookup-insert, count_of,
}
use mathlib.Core.Bool.{and-eq-true_iff}
use ot_collector.Event.{Event}
use ot_collector.Config.Rules.{RuleConfig}
use ot_collector.Filter.{
  Engine, drop_decision, limit_rate, suppress_duplicate, sample, Action, sampling, act_as, act,
  is_kept, fire, evaluate, unix, rate_count,
}
use ot_collector.Filter.Match.{rate_key, sample_key}
use ot_collector.Float.{le_zero, tenth, sample_to_keep_every}
use ot_collector.Filter.FirstMatch.{first_match, evaluate-first_match}

-- One event after another, each with the time of its call.
abbrev pub History : Type 0
History = List (ℕ × Event)

unfoldable pub run : Engine → History → Engine
run e [] = e
run e ((now, evt) ∷ h) = run (evaluate e (some evt) now).0 h

-- The event's rule limits the rate to `limit`, and counts under `key`.
unfoldable pub is_limited : ℕ → String → Engine → Event → Bool
is_limited limit key e evt = elim (first_match evt e.rules) [
  | none ↦ false
  | some r ↦ pos_part r.rate_limit_per_second == limit && str_eq (rate_key r evt) key
]

-- How many of the events under the limit get past it.
unfoldable pub admitted : ℕ → String → Engine → History → ℕ
admitted limit key e [] = 0
admitted limit key e ((now, evt) ∷ h) =
    let (e', d) = evaluate e (some evt) now in
    (if is_limited limit key e evt && not (str_eq d.reason "rule_rate_limit") then 1 else 0)
    + admitted limit key e' h

act_as_rates :
    (a : Action) (e : Engine) (evt : Event) (r : RuleConfig)
    → (act_as a e evt r).0.rate_by_source ≡ e.rate_by_source
unfolding act_as sample
act_as_rates sampling e evt r = refl
act_as_rates _ e evt r = refl

duplicate_rates :
    (e : Engine) (evt : Event) (r : RuleConfig) (now : ℕ)
    → (suppress_duplicate e evt r now).0.rate_by_source ≡ e.rate_by_source
unfolding suppress_duplicate
duplicate_rates e evt r now = ground arith

-- Only the rate limit touches the counters of rates.
fire_rates :
    (e : Engine) (evt : Event) (r : RuleConfig) (now : ℕ)
    → (fire e evt r now).0.rate_by_source ≡ (limit_rate e evt r now).0.rate_by_source
unfolding fire drop_decision act
fire_rates e evt r now = elim (Bool-cases (limit_rate e evt r now).1) [
  | inl over ↦ rw over
  | inr under ↦ elim (Bool-cases (suppress_duplicate (limit_rate e evt r now).0 evt r now).1) [
    | inl seen ↦ rw (under, seen) (duplicate_rates (limit_rate e evt r now).0 evt r now)
    | inr fresh ↦
        rw (under, fresh)
          (act_as_rates _ (suppress_duplicate (limit_rate e evt r now).0 evt r now).0 evt r
            ∙ duplicate_rates (limit_rate e evt r now).0 evt r now)
  ]
]

act_as_reason :
    (a : Action) (e : Engine) (evt : Event) (r : RuleConfig)
    → str_eq (act_as a e evt r).1.reason "rule_rate_limit" ≡ false
unfolding act_as sample drop_decision
act_as_reason sampling e evt r =
    elim (Bool-cases (
      is_kept (sample_to_keep_every (if le_zero r.sample_rate then tenth else r.sample_rate))
        (count_of (sample_key r evt) e.sample_counts + 1))) [
          | inl kept ↦ rw kept
          | inr gone ↦ rw gone
        ]
act_as_reason _ e evt r = refl

-- A decision blames the rate limit exactly when the limit is over.
pub fire_reason :
    (e : Engine) (evt : Event) (r : RuleConfig) (now : ℕ)
    → str_eq (fire e evt r now).1.reason "rule_rate_limit" ≡ (limit_rate e evt r now).1
unfolding fire drop_decision act
fire_reason e evt r now = elim (Bool-cases (limit_rate e evt r now).1) [
  | inl over ↦ rw over
  | inr under ↦ elim (Bool-cases (suppress_duplicate (limit_rate e evt r now).0 evt r now).1) [
    | inl seen ↦ rw (under, seen)
    | inr fresh ↦
        rw (under, fresh)
          (act_as_reason _ (suppress_duplicate (limit_rate e evt r now).0 evt r now).0 evt r)
  ]
]

module _ (limit : ℕ) (key : String) (sec : ℕ) where
  -- A step within the second counts an event once.
  limit_rate_count :
      (e : Engine) (evt : Event) (r : RuleConfig) (now : ℕ)
      → unix now ≡ sec
      → rate_count key sec e ≤ rate_count key sec (limit_rate e evt r now).0
  unfolding limit_rate rate_count
  limit_rate_count e evt r now same = ground (
    arith,
    eq_iff (rate_key r evt) key,
    lookup-insert (rate_key r evt) key
        (record { second = unix now; count = rate_count (rate_key r evt) (unix now) e + 1 })
        e.rate_by_source,
  )

  limit_rate_admits :
      (e : Engine) (evt : Event) (r : RuleConfig) (now : ℕ)
      → 0 < limit
      → unix now ≡ sec
      → pos_part r.rate_limit_per_second ≡ limit
      → rate_key r evt ≡ key
      → (limit_rate e evt r now).1 ≡ false
      → (rate_count key sec (limit_rate e evt r now).0 ≡ rate_count key sec e + 1)
        × (rate_count key sec e + 1 ≤ limit)
  unfolding limit_rate rate_count
  limit_rate_admits e evt r now some_limit same lim k under = ground (
    arith,
    eq_iff (rate_key r evt) key,
    lookup-insert (rate_key r evt) key
        (record { second = unix now; count = rate_count (rate_key r evt) (unix now) e + 1 })
        e.rate_by_source,
  )

  rate_count_of_rates :
      (e e' : Engine)
      → e.rate_by_source ≡ e'.rate_by_source
      → rate_count key sec e ≡ rate_count key sec e'
  unfolding rate_count
  rate_count_of_rates e e' same = rw same

  fire_count :
      (e : Engine) (evt : Event) (r : RuleConfig) (now : ℕ)
      → rate_count key sec (fire e evt r now).0 ≡ rate_count key sec (limit_rate e evt r now).0
  fire_count e evt r now = rate_count_of_rates _ _ (fire_rates e evt r now)

  evaluate_count :
      (e : Engine) (evt : Event) (now : ℕ)
      → unix now ≡ sec
      → rate_count key sec e ≤ rate_count key sec (evaluate e (some evt) now).0
  evaluate_count e evt now same = elim (Option-cases (first_match evt e.rules)) [
    | inl missed ↦ rw (evaluate-first_match e evt now, missed) (omega arith)
    | inr (r, found) ↦
        rw (evaluate-first_match e evt now, found, fire_count e evt r now)
          (limit_rate_count e evt r now same)
  ]

  evaluate_admits :
      (e : Engine) (evt : Event) (now : ℕ)
      → 0 < limit
      → unix now ≡ sec
      → is_limited limit key e evt ≡ true
      → str_eq (evaluate e (some evt) now).1.reason "rule_rate_limit" ≡ false
      → (rate_count key sec (evaluate e (some evt) now).0 ≡ rate_count key sec e + 1)
        × (rate_count key sec e + 1 ≤ limit)
  unfolding is_limited
  evaluate_admits e evt now some_limit same lim under =
      elim (Option-cases (first_match evt e.rules)) [
        | inl missed ↦ cc (rw (missed, is_limited) at lim)
        | inr (r, found) ↦
            let (l, k) = (and-eq-true_iff _ _).0 (rw (found, is_limited) at lim) in
            let u : (limit_rate e evt r now).1 ≡ false =
              sym (fire_reason e evt r now)
              ∙ (rw (evaluate-first_match e evt now, found) at under) in
            rw (evaluate-first_match e evt now, found, fire_count e evt r now)
              (limit_rate_admits e evt r now some_limit same ((==_iff _ _).0 l) ((eq_iff _ _).0 k)
                u)
      ]

  admitted_bound :
      (e : Engine) (h : History)
      → 0 < limit
      → All (λ s. unix s.0 ≡ sec) h
      → admitted limit key e h ≤ limit - rate_count key sec e
  unfolding admitted
  admitted_bound e [] some_limit _ = omega arith
  admitted_bound e ((now, evt) ∷ h) some_limit (same, later) =
      let e' = (evaluate e (some evt) now).0 in
      let rest = admitted_bound e' h some_limit later in
      let grows = evaluate_count e evt now same in
      elim (Bool-cases (is_limited limit key e evt)) [
        | inr other ↦ rw other (omega arith)
        | inl lim ↦
            elim (Bool-cases (str_eq (evaluate e (some evt) now).1.reason "rule_rate_limit")) [
              | inl over ↦ rw (lim, over) (omega arith)
              | inr under ↦
                  let counted = evaluate_admits e evt now some_limit same lim under in
                  rw (lim, under) (omega arith)
            ]
      ]

-- Of the events of one second whose rule limits the rate to `limit`, which is above 0, and that
-- count under one key, at most `limit` get past the rate limit, whatever else arrives in between
-- and whatever the engine has seen before.
pub admitted-le-limit :
    (limit : ℕ) (key : String) (sec : ℕ) (e : Engine) (h : History)
    → 0 < limit
    → All (λ s. unix s.0 ≡ sec) h
    → admitted limit key e h ≤ limit
admitted-le-limit limit key sec e h some_limit within_second =
    omega (arith, admitted_bound limit key sec e h some_limit within_second)
