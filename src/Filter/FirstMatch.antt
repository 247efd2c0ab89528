-- ===== src/Filter/FirstMatch.antt =====
-- Which rule decides, and what its decisions look like.
use ot_collector.Prelude.{
  ℕ, ◌≡◌, refl, ap, ◌⊎◌, inl, inr, true, false, Option, none, some, List, [], ◌∷◌, ◌++◌, arith, All,
  Bool-cases, if◌then◌else◌,
}
use ot_collector.Event.{Event}
use ot_collector.Config.Rules.{RuleConfig}
use ot_collector.Filter.{
  Engine, Decision, default_decision, drop_decision, limit_rate, suppress_duplicate, sample, Action,
  dropping, sampling, act_as, act, fire, apply_rules, evaluate,
}
use ot_collector.Filter.Match.{matches}

-- The first rule that matches, with the rules before it.
pub data FirstMatch (evt : Event) (rules : List RuleConfig) (r : RuleConfig) : Type 0 where
  first :
      (before after : List RuleConfig)
      → rules ≡ before ++ r ∷ after
      → All (λ q. matches q evt ≡ false) before
      → matches r evt ≡ true
      → FirstMatch evt rules r

unfoldable pub first_match : Event → List RuleConfig → Option RuleConfig
first_match evt [] = none
first_match evt (r ∷ rules) = if matches r evt then some r else first_match evt rules

apply_rules-first_match :
    (e : Engine) (evt : Event) (rules : List RuleConfig) (now : ℕ)
    → apply_rules e evt rules now
      ≡ (elim (first_match evt rules) [ none ↦ (e, default_decision) | some r ↦ fire e evt r now ])
unfolding first_match apply_rules
apply_rules-first_match e evt [] now = refl
apply_rules-first_match e evt (r ∷ rules) now = elim (Bool-cases (matches r evt)) [
  | inl hit ↦ rw hit
  | inr miss ↦ rw miss (apply_rules-first_match e evt rules now)
]

pub evaluate-first_match :
    (e : Engine) (evt : Event) (now : ℕ)
    → evaluate e (some evt) now ≡ (elim (first_match evt e.rules) [
      | none ↦ (e, default_decision)
      | some r ↦ fire e evt r now
    ])
unfolding evaluate
evaluate-first_match e evt now = apply_rules-first_match e evt e.rules now

FirstMatch-cons :
    (evt : Event) (q r : RuleConfig) {rules : List RuleConfig}
    → matches q evt ≡ false
    → FirstMatch evt rules r
    → FirstMatch evt (q ∷ rules) r
FirstMatch-cons evt q r miss (first before after e none_before hit) =
    first (q ∷ before) after (ap (◌∷◌ q) e) (miss, none_before) hit

pub first_match_cases :
    (evt : Event) (rules : List RuleConfig)
    → ((first_match evt rules ≡ none) × All (λ q. matches q evt ≡ false) rules)
      ⊎ ((r : RuleConfig) × (first_match evt rules ≡ some r) × FirstMatch evt rules r)
unfolding first_match
first_match_cases evt [] = inl (refl, tt)
first_match_cases evt (q ∷ rules) = elim (Bool-cases (matches q evt)) [
  | inl hit ↦ inr (q, rw hit, first [] rules refl tt hit)
  | inr miss ↦ elim (first_match_cases evt rules) [
    | inl (e, all_miss) ↦ inl (rw miss e, (miss, all_miss))
    | inr (r, e, f) ↦ inr (r, rw miss e, FirstMatch-cons evt q r miss f)
  ]
]

-- The decision of an event that no rule matches.
abbrev pub stored_and_shown : Decision
stored_and_shown = record {
  store = true;
  forward = false;
  show = true;
  drop = false;
  sampled = false;
  matched_rule_id = "default-store-only";
  reason = "default_store_only";
}

-- The decision of an event is that of the first enabled rule all of whose fields match, whatever
-- the rules after it say; if no rule matches, the event is stored and shown, neither forwarded nor
-- dropped, under the name "default-store-only", and the engine stays as it is.
pub evaluate-FirstMatch :
    (e : Engine) (evt : Event) (now : ℕ)
    → (All (λ q. matches q evt ≡ false) e.rules
        × (evaluate e (some evt) now ≡ (e, stored_and_shown)))
      ⊎ ((r : RuleConfig) × FirstMatch evt e.rules r
          × (evaluate e (some evt) now ≡ fire e evt r now))
unfolding default_decision
evaluate-FirstMatch e evt now = elim (first_match_cases evt e.rules) [
  | inl (missed, all_miss) ↦ inl (all_miss, rw (evaluate-first_match e evt now, missed))
  | inr (r, found, f) ↦ inr (r, f, rw (evaluate-first_match e evt now, found))
]

-- What every decision satisfies.
pub record IsCoherent (d : Decision) : Type 0 where
  pub dropped_stays : d.drop ≡ true → d.forward ≡ false
  pub shown_dropped_is_stored : d.drop ≡ true → d.show ≡ true → d.store ≡ true

act_as-IsCoherent :
    (a : Action) (e : Engine) (evt : Event) (r : RuleConfig) → IsCoherent (act_as a e evt r).1
unfolding act_as sample drop_decision
act_as-IsCoherent dropping e evt r = ground arith
act_as-IsCoherent sampling e evt r = ground arith
act_as-IsCoherent _ e evt r = ground arith

fire-IsCoherent :
    (e : Engine) (evt : Event) (r : RuleConfig) (now : ℕ) → IsCoherent (fire e evt r now).1
unfolding fire drop_decision act
fire-IsCoherent e evt r now = elim (Bool-cases (limit_rate e evt r now).1) [
  | inl over ↦ rw over (ground arith)
  | inr under ↦ elim (Bool-cases (suppress_duplicate (limit_rate e evt r now).0 evt r now).1) [
    | inl seen ↦ rw (under, seen) (ground arith)
    | inr fresh ↦
        rw (under, fresh)
          (act_as-IsCoherent _ (suppress_duplicate (limit_rate e evt r now).0 evt r now).0 evt r)
  ]
]

-- Whatever the rules, a decision to drop an event is never one to forward it, and a dropped event
-- is shown only if it is stored.
pub evaluate-IsCoherent :
    (e : Engine) (evt : Event) (now : ℕ) → IsCoherent (evaluate e (some evt) now).1
unfolding default_decision
evaluate-IsCoherent e evt now = elim (evaluate-FirstMatch e evt now) [
  | inl (missed, same) ↦ rw same (ground arith)
  | inr (r, found, same) ↦ rw same (fire-IsCoherent e evt r now)
]
