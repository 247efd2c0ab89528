-- ===== src/Config/Rules/Sanity.antt =====
-- What sanitizeRules guarantees.
use ot_collector.Prelude.{
  ℕ, String, Bool, true, false, not, ◌&&◌, Option, none, some, List, [], ◌∷◌, ◌≡◌, ◌≢◌, refl,
  str_eq, if◌then◌else◌, Bool-cases, inl, inr, All,
}
use ot_collector.Float.{le_zero, one_rate}
use ot_collector.Event.{or_default_idem, or_default-ne}
use ot_collector.Config.Rules.{RuleConfig, sanitize_rule, sanitize_rules}

rate_idem :
    (x : ℕ) → let y = (if le_zero x then one_rate else x) in (if le_zero y then one_rate else y) ≡ y
rate_idem x = elim (Bool-cases (le_zero x)) [ inl e ↦ rw e | inr e ↦ rw (e, e) ]

tag_idem :
    (key value : String)
    → let k = (if str_eq key "" && not (str_eq value "") then "*" else key) in
      (if str_eq k "" && not (str_eq value "") then "*" else k) ≡ k
tag_idem key value = elim (Bool-cases (str_eq key "" && not (str_eq value ""))) [
  | inl e ↦ rw e
  | inr e ↦ rw (e, e)
]

show_idem :
    (show : Option Bool)
    → let shown = λ (o : Option Bool). (elim o as (λ _. Option Bool) [
      | none ↦ some true
      | some b ↦ some b
    ]) in
      shown (shown show) ≡ shown show
show_idem none = refl
show_idem (some b) = refl

sanitize_rule_idem : (r : RuleConfig) → sanitize_rule (sanitize_rule r) ≡ sanitize_rule r
unfolding sanitize_rule
sanitize_rule_idem r = λ i. record (sanitize_rule r) {
  source_type = or_default_idem r.source_type "*" refl i;
  asset = or_default_idem r.asset "*" refl i;
  category = or_default_idem r.category "*" refl i;
  severity = or_default_idem r.severity "*" refl i;
  operation = or_default_idem r.operation "*" refl i;
  event_type = or_default_idem r.event_type "*" refl i;
  tag_key = tag_idem r.tag_key r.tag_value i;
  action = or_default_idem r.action "keep" refl i;
  sample_rate = rate_idem r.sample_rate i;
  show_in_ui = show_idem r.show_in_ui i;
}

sanitize_rule_id : (r : RuleConfig) → (sanitize_rule r).id ≡ r.id
unfolding sanitize_rule
sanitize_rule_id r = refl

-- Sanitizing a list of rules twice is sanitizing it once.
pub sanitize_rules_idem :
    (rs : List RuleConfig) → sanitize_rules (sanitize_rules rs) ≡ sanitize_rules rs
unfolding sanitize_rules sanitize_rule
sanitize_rules_idem [] = refl
sanitize_rules_idem (r ∷ rs) = elim (Bool-cases (str_eq r.id "")) [
  | inl e ↦ rw e (sanitize_rules_idem rs)
  | inr e ↦ rw e (rw (sanitize_rule_id r, e, sanitize_rule_idem r, sanitize_rules_idem rs))
]

-- What a sanitized rule has: an id, an action and patterns that are written out, and a rate above 0.
pub record IsSane (r : RuleConfig) : Type 0 where
  pub has_id : str_eq r.id "" ≡ false
  pub has_source : str_eq r.source_type "" ≡ false
  pub has_asset : str_eq r.asset "" ≡ false
  pub has_category : str_eq r.category "" ≡ false
  pub has_severity : str_eq r.severity "" ≡ false
  pub has_operation : str_eq r.operation "" ≡ false
  pub has_event_type : str_eq r.event_type "" ≡ false
  pub has_action : str_eq r.action "" ≡ false
  pub has_rate : le_zero r.sample_rate ≡ false
  pub has_visibility : r.show_in_ui ≢ none

rate-pos : (x : ℕ) → le_zero (if le_zero x then one_rate else x) ≡ false
rate-pos x = elim (Bool-cases (le_zero x)) [ inl e ↦ rw e | inr e ↦ rw e e ]

sanitize_rule-IsSane : (r : RuleConfig) → str_eq r.id "" ≡ false → IsSane (sanitize_rule r)
unfolding sanitize_rule
sanitize_rule-IsSane r h = record {
  has_id = h;
  has_source = or_default-ne r.source_type "*" refl;
  has_asset = or_default-ne r.asset "*" refl;
  has_category = or_default-ne r.category "*" refl;
  has_severity = or_default-ne r.severity "*" refl;
  has_operation = or_default-ne r.operation "*" refl;
  has_event_type = or_default-ne r.event_type "*" refl;
  has_action = or_default-ne r.action "keep" refl;
  has_rate = rate-pos r.sample_rate;
  has_visibility = visible r.show_in_ui;
}
  where
    visible :
        (show : Option Bool)
        → (elim show as (λ _. Option Bool) [ none ↦ some true | some b ↦ some b ]) ≢ none
    visible none e = cc
    visible (some b) e = cc

-- Whatever list of rules is sanitized, the result is a list of rules with an id, an action and
-- patterns that are written out, a sample rate above 0 and a visibility that is set.
pub sanitize_rules-IsSane : (rs : List RuleConfig) → All IsSane (sanitize_rules rs)
unfolding sanitize_rules
sanitize_rules-IsSane [] = tt
sanitize_rules-IsSane (r ∷ rs) = elim (Bool-cases (str_eq r.id "")) [
  | inl e ↦ rw e (sanitize_rules-IsSane rs)
  | inr e ↦ rw e (sanitize_rule-IsSane r e, sanitize_rules-IsSane rs)
]
