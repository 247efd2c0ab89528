-- ===== src/Config/Rules/Restart.antt =====
-- Which rules a restart finds.
use ot_collector.Prelude.{String, List, [], ◌∷◌, ◌≡◌, refl, true, ◌∙◌, sym, ap}
use ot_collector.Config.Store.{Store, Codec, written, contents, or_defaults}
use ot_collector.Config.Store.Reload.{ReadsBack, replace_saves, load_reads}
use ot_collector.Config.Rules.{
  RuleConfig, sanitize_rules, default_rules, rule_kind, replace_rules, load_rules,
}
use ot_collector.Config.Rules.Sanity.{sanitize_rules_idem}

-- The rules of the next start, if the store keeps these.
abbrev pub found_again : List RuleConfig → List RuleConfig
found_again [] = sanitize_rules default_rules
found_again (x ∷ xs) = x ∷ xs

module _ (codec : Codec RuleConfig) where
  sane-found_again :
      (xs : List RuleConfig)
      → sanitize_rules xs ≡ xs
      → sanitize_rules (or_defaults codec rule_kind xs) ≡ found_again xs
  unfolding or_defaults rule_kind
  sane-found_again [] h = refl
  sane-found_again (x ∷ xs) h = h

  -- Rules that were saved are found again by the next start, if the JSON text reads back; but when the
  -- store keeps no rule, since none was posted or none has an id, the next start puts the default
  -- rules in their place: a list that was emptied on purpose does not survive a restart.
  pub load_rules-replace_rules :
      (xs : List RuleConfig) (s s' : Store RuleConfig) (b : String)
      → ReadsBack codec rule_kind (sanitize_rules xs) b
      → (load_rules codec true (contents b) written s').0.items
        ≡ found_again (replace_rules codec written xs s).0.items
  unfolding load_rules replace_rules rule_kind
  load_rules-replace_rules xs s s' b h =
      load_reads codec rule_kind (sanitize_rules xs) b s' h.decoded h.not_empty
      ∙ sane-found_again (sanitize_rules xs) (sanitize_rules_idem xs)
      ∙ sym (ap (λ p. found_again p.0.items) (replace_saves codec rule_kind xs s b h))
