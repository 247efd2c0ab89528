-- ===== src/Api/RuleChanges.antt =====
-- The rules of the store and the rules of the engine.
use ot_collector.Prelude.{
  arith, ℕ, ◌≡◌, ◌≢◌, refl, String, Option, none, some, List, ◌⊎◌, inl, inr, Bool-cases,
  Option-cases, str_eq,
}
use ot_collector.GoText.{trim_prefix}
use ot_collector.Config.Store
use ot_collector.Config.Store.{Store, Write, Error, persist}
use ot_collector.Config.Rules.{RuleConfig, sanitize_rules, replace_rules}
use ot_collector.Processor.{current_rules, set_rules_of}
use ot_collector.Filter.{set_rules}
use ot_collector.Api.{
  Api, Method, get, post, put, delete, other_method, handle_config_rules, change_rule,
  handle_config_rule_by_id, after_rule_change,
}

-- The engine runs the rules that the store holds.
abbrev pub IsInForce : Api → Type 0
IsInForce a = current_rules a.processor ≡ a.rule_store.items

-- The answer is not 200, and the engine's rules are those of before.
abbrev pub IsRefused : Api → Api × ℕ → Type 0
IsRefused a (b, status) = (status ≢ 200) × (current_rules b.processor ≡ current_rules a.processor)

abbrev Outcome : Api → Api × ℕ → Type 0
Outcome a (b, status) = ((status ≡ 200) × IsInForce b) ⊎ IsRefused a (b, status)

module _ (codec : Store.Codec RuleConfig) (w : Write) where
  after_rule_change_lem :
      (r : Store RuleConfig × Option Error) (a : Api) → Outcome a (after_rule_change codec w r a)
  unfolding set_rules_of set_rules current_rules
  after_rule_change_lem (s, none) a = inl (refl, refl)
  after_rule_change_lem (s, some e) a = inr (omega arith, refl)

  change_rule_lem :
      (id : String) (method : Method) (body : Option RuleConfig) (a : Api)
      → Outcome a (change_rule codec w id method body a)
  unfolding change_rule
  change_rule_lem id put none a = inr (omega arith, refl)
  change_rule_lem id put (some one) a = after_rule_change_lem _ a
  change_rule_lem id delete body a = after_rule_change_lem _ a
  change_rule_lem id get body a = inr (omega arith, refl)
  change_rule_lem id post body a = inr (omega arith, refl)
  change_rule_lem id other_method body a = inr (omega arith, refl)

  -- A request for one rule, whatever its path, method and body and whatever the disk does, either
  -- is answered with 200, and then the engine runs the rules that the store holds, or is
  -- answered with an error, and then the engine runs the rules of before.
  pub change_by_id :
      (path : String) (method : Method) (body : Option RuleConfig) (a : Api)
      → Outcome a (handle_config_rule_by_id codec w path method body a)
  unfolding handle_config_rule_by_id
  change_by_id path method body a =
      elim (Bool-cases (str_eq (trim_prefix path "/config/rules/") "")) [
        | inl no_id ↦ rw no_id (inr (omega arith, refl))
        | inr id ↦ rw id (change_rule_lem (trim_prefix path "/config/rules/") method body a)
      ]

  replace_items :
      (all : List RuleConfig) (s : Store RuleConfig)
      → (replace_rules codec w all s).0.items ≡ sanitize_rules all
  unfolding replace_rules persist
  replace_items all s = ground arith

  refused : (n : ℕ) → n ≡ 500 → n ≢ 200
  refused n e = omega (arith, e)

  -- Posting a list of rules that is answered with 200 leaves two lists: the store holds the rules
  -- as they are sanitized, and the engine runs them as they were posted.
  pub post_unsanitized :
      (all : List RuleConfig) (a : Api)
      → let (b, status) = handle_config_rules codec w post (some all) a in
        status ≡ 200 → (b.rule_store.items ≡ sanitize_rules all) × (current_rules b.processor ≡ all)
  unfolding handle_config_rules set_rules_of set_rules current_rules
  post_unsanitized all a = elim (Option-cases (replace_rules codec w all a.rule_store).1) [
    | inl ok ↦ rw (handle_config_rules, ok) (λ _. (replace_items all a.rule_store, refl))
    | inr (e, bad) ↦ rw (handle_config_rules, bad) (λ h. elim (refused 500 refl h) [ ])
  ]
