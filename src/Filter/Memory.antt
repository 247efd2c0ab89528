-- ===== src/Filter/Memory.antt =====
-- What the engine remembers of the events that it has seen.
use ot_collector.Prelude.{
  ℕ, ◌≤◌, ◌≡◌, refl, sym, ◌∙◌, ◌⊎◌, inl, inr, String, Bool, true, false, some, [], ◌∷◌, arith, All,
  Bool-cases, Option-cases, str_eq, lookup-insert, lookup, is_pos,
}
use ot_collector.Event.{Event}
use ot_collector.Config.Rules.{RuleConfig}
use ot_collector.Filter.{
  Engine, drop_decision, limit_rate, suppress_duplicate, sample, Action, sampling, act_as, act,
  fire, evaluate, after_duplicate,
}
use ot_collector.Filter.Match.{dedup_key, operation_for}
use ot_collector.Filter.FirstMatch.{first_match, evaluate-first_match}
use ot_collector.Filter.Rates.{History, run}

-- The key under which a rule remembers an event.
abbrev pub key_of : RuleConfig → Event → String
key_of r evt = dedup_key r evt (operation_for evt)

-- The key was last seen between the two times.
pub record SeenBetween (key : String) (from to : ℕ) (e : Engine) : Type 0 where
  pub last_seen : ℕ
  pub found : lookup key e.dedup_cache ≡ some last_seen
  pub late : from ≤ last_seen
  pub early : last_seen ≤ to

SeenBetween-of_cache :
    {key : String} {from to : ℕ} {e : Engine} (e' : Engine)
    → e.dedup_cache ≡ e'.dedup_cache
    → SeenBetween key from to e
    → SeenBetween key from to e'
SeenBetween-of_cache e' same s = record {
  last_seen = s.last_seen;
  found = rw (← same) s.found;
  late = s.late;
  early = s.early;
}

act_as_cache :
    (a : Action) (e : Engine) (evt : Event) (r : RuleConfig)
    → (act_as a e evt r).0.dedup_cache ≡ e.dedup_cache
unfolding act_as sample
act_as_cache sampling e evt r = refl
act_as_cache _ e evt r = refl

pub limit_cache :
    (e : Engine) (evt : Event) (r : RuleConfig) (now : ℕ)
    → (limit_rate e evt r now).0.dedup_cache ≡ e.dedup_cache
unfolding limit_rate
limit_cache e evt r now = ground arith

pub limit_rules :
    (e : Engine) (evt : Event) (r : RuleConfig) (now : ℕ)
    → (limit_rate e evt r now).0.rules ≡ e.rules
unfolding limit_rate
limit_rules e evt r now = ground arith

pub duplicate_rules :
    (e : Engine) (evt : Event) (r : RuleConfig) (now : ℕ)
    → (suppress_duplicate e evt r now).0.rules ≡ e.rules
unfolding suppress_duplicate
duplicate_rules e evt r now = ground arith

act_as_rules :
    (a : Action) (e : Engine) (evt : Event) (r : RuleConfig) → (act_as a e evt r).0.rules ≡ e.rules
unfolding act_as sample
act_as_rules sampling e evt r = refl
act_as_rules _ e evt r = refl

-- What a rule that fires leaves in the engine, by the branch that it takes.
pub fire_state :
    (e : Engine) (evt : Event) (r : RuleConfig) (now : ℕ)
    → ((limit_rate e evt r now).1 ≡ true)
        × (fire e evt r now ≡ ((limit_rate e evt r now).0, drop_decision "rule_rate_limit" r.id))
      ⊎ ((limit_rate e evt r now).1 ≡ false)
        × (fire e evt r now
            ≡ after_duplicate (suppress_duplicate (limit_rate e evt r now).0 evt r now) evt r)
unfolding fire
fire_state e evt r now = elim (Bool-cases (limit_rate e evt r now).1) [
  | inl over ↦ inl (over, rw over)
  | inr under ↦ inr (under, rw under)
]

pub after_duplicate_cache :
    (s : Engine × Bool) (evt : Event) (r : RuleConfig)
    → ((after_duplicate s evt r).0.dedup_cache ≡ s.0.dedup_cache)
      × ((after_duplicate s evt r).0.rules ≡ s.0.rules)
unfolding act
after_duplicate_cache (e, true) evt r = (refl, refl)
after_duplicate_cache (e, false) evt r = (act_as_cache _ e evt r, act_as_rules _ e evt r)

module _ (key : String) (from to : ℕ) where
  suppress_sees :
      (e : Engine) (evt : Event) (r : RuleConfig) (now : ℕ)
      → from ≤ now
      → now ≤ to
      → SeenBetween key from to e
      → SeenBetween key from to (suppress_duplicate e evt r now).0
  unfolding suppress_duplicate
  suppress_sees e evt r now le ge s = elim (Bool-cases (is_pos r.dedup_window_seconds)) [
    | inr off ↦ rw off s
    | inl on ↦ elim (Bool-cases (str_eq (key_of r evt) key)) [
      | inl same ↦
          rw on
            (record { last_seen = now; found = rw (lookup-insert, same); late = le; early = ge })
      | inr other ↦ rw on (record {
        last_seen = s.last_seen;
        found = rw (lookup-insert, other) s.found;
        late = s.late;
        early = s.early;
      })
    ]
  ]

  fire_sees :
      (e : Engine) (evt : Event) (r : RuleConfig) (now : ℕ)
      → from ≤ now
      → now ≤ to
      → SeenBetween key from to e
      → SeenBetween key from to (fire e evt r now).0 × ((fire e evt r now).0.rules ≡ e.rules)
  fire_sees e evt r now le ge s =
      let e₁ = (limit_rate e evt r now).0 in
      let s₁ = SeenBetween-of_cache e₁ (sym (limit_cache e evt r now)) s in
      elim (fire_state e evt r now) [
        | inl (over, same) ↦ rw same (s₁, limit_rules e evt r now)
        | inr (under, same) ↦
            let p = suppress_duplicate e₁ evt r now in
            let (cache, rules) = after_duplicate_cache p evt r in
            rw same (
              SeenBetween-of_cache _ (sym cache) (suppress_sees e₁ evt r now le ge s₁),
              rules ∙ duplicate_rules e₁ evt r now ∙ limit_rules e evt r now,
            )
      ]

  evaluate_sees :
      (e : Engine) (evt : Event) (now : ℕ)
      → from ≤ now
      → now ≤ to
      → SeenBetween key from to e
      → SeenBetween key from to (evaluate e (some evt) now).0
        × ((evaluate e (some evt) now).0.rules ≡ e.rules)
  evaluate_sees e evt now le ge s = elim (Option-cases (first_match evt e.rules)) [
    | inl missed ↦ rw (evaluate-first_match e evt now, missed) (s, refl)
    | inr (r, found) ↦ rw (evaluate-first_match e evt now, found) (fire_sees e evt r now le ge s)
  ]

  -- Whatever arrives in between, the key stays remembered.
  pub run_sees :
      (e : Engine) (h : History)
      → All (λ s. (from ≤ s.0) × (s.0 ≤ to)) h
      → SeenBetween key from to e
      → SeenBetween key from to (run e h) × ((run e h).rules ≡ e.rules)
  unfolding run
  run_sees e [] _ s = (s, refl)
  run_sees e ((now, evt) ∷ h) ((le, ge), later) s =
      let (s', kept) = evaluate_sees e evt now le ge s in
      let (s'', kept') = run_sees (evaluate e (some evt) now).0 h later s' in (s'', kept' ∙ kept)
