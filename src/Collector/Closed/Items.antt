-- ===== src/Collector/Closed/Items.antt =====
-- The handlers that change the rules and the sources.
use ot_collector.Prelude.{
  String, Option, none, some, List, str_eq, Bool-cases, Option-cases, inl, inr,
}
use ot_collector.GoText.{trim_prefix}
use ot_collector.Config.Rules.{RuleConfig, upsert_rule, delete_rule, replace_rules}
use ot_collector.Config.Sources.{SourceConfig, upsert_source, delete_source, replace_sources}
use ot_collector.Processor.{Processor}
use ot_collector.Api.{
  Api, Method, get, post, put, delete, other_method, change_rule, change_source,
  handle_config_rules, handle_config_rule_by_id, handle_config_sources, handle_config_source_by_id,
}
use ot_collector.Api.Server.{Formats, Turn}
use ot_collector.Collector.Closed.{IsClosed}

module _ (f : Formats) (P : Processor → Type 0) (closed : IsClosed f P) where
  module _ (t : Turn) where
    pub change_rule_closed :
        (id : String) (m : Method) (body : Option RuleConfig) (a : Api)
        → P a.processor
        → P (change_rule f.rules t.write id m body a).0.processor
    unfolding change_rule
    change_rule_closed id put none a h = h
    change_rule_closed id put (some one) a h =
        elim (Option-cases (upsert_rule f.rules t.write (record one { id = id }) a.rule_store).1) [
          | inl e ↦ rw e (closed.ruled _ a.processor h)
          | inr (x, e) ↦ rw e h
        ]
    change_rule_closed id delete body a h =
        elim (Option-cases (delete_rule f.rules t.write id a.rule_store).1) [
          | inl e ↦ rw e (closed.ruled _ a.processor h)
          | inr (x, e) ↦ rw e h
        ]
    change_rule_closed id get body a h = h
    change_rule_closed id post body a h = h
    change_rule_closed id other_method body a h = h

    pub rule_by_id_closed :
        (path : String) (m : Method) (body : Option RuleConfig) (a : Api)
        → P a.processor
        → P (handle_config_rule_by_id f.rules t.write path m body a).0.processor
    unfolding handle_config_rule_by_id
    rule_by_id_closed path m body a h =
        elim (Bool-cases (str_eq (trim_prefix path "/config/rules/") "")) [
          | inl e ↦ rw e h
          | inr e ↦ rw e (change_rule_closed _ m body a h)
        ]

    pub rules_closed :
        (m : Method) (body : Option (List RuleConfig)) (a : Api)
        → P a.processor
        → P (handle_config_rules f.rules t.write m body a).0.processor
    unfolding handle_config_rules
    rules_closed post none a h = h
    rules_closed post (some all) a h =
        elim (Option-cases (replace_rules f.rules t.write all a.rule_store).1) [
          | inl e ↦ rw (handle_config_rules, e) (closed.ruled all a.processor h)
          | inr (x, e) ↦ rw (handle_config_rules, e) h
        ]
    rules_closed get body a h = h
    rules_closed put body a h = h
    rules_closed delete body a h = h
    rules_closed other_method body a h = h

    pub sources_closed :
        (m : Method) (body : Option (List SourceConfig)) (a : Api)
        → P a.processor
        → P (handle_config_sources f.sources t.write m body a).0.processor
    unfolding handle_config_sources
    sources_closed post none a h = h
    sources_closed post (some all) a h =
        elim (Option-cases (replace_sources f.sources t.write all a.source_store).1) [
          | inl e ↦ rw (handle_config_sources, e) h
          | inr (x, e) ↦ rw (handle_config_sources, e) h
        ]
    sources_closed get body a h = h
    sources_closed put body a h = h
    sources_closed delete body a h = h
    sources_closed other_method body a h = h

    pub change_source_closed :
        (id : String) (m : Method) (body : Option SourceConfig) (a : Api)
        → P a.processor
        → P (change_source f.sources t.write id m body a).0.processor
    unfolding change_source
    change_source_closed id put none a h = h
    change_source_closed id put (some one) a h =
        elim (Option-cases
          (upsert_source f.sources t.write (record one { id = id }) a.source_store).1) [
            | inl e ↦ rw e h
            | inr (x, e) ↦ rw e h
          ]
    change_source_closed id delete body a h =
        elim (Option-cases (delete_source f.sources t.write id a.source_store).1) [
          | inl e ↦ rw e h
          | inr (x, e) ↦ rw e h
        ]
    change_source_closed id get body a h = h
    change_source_closed id post body a h = h
    change_source_closed id other_method body a h = h

    pub source_by_id_closed :
        (path : String) (m : Method) (body : Option SourceConfig) (a : Api)
        → P a.processor
        → P (handle_config_source_by_id f.sources t.write path m body a).0.processor
    unfolding handle_config_source_by_id
    source_by_id_closed path m body a h =
        elim (Bool-cases (str_eq (trim_prefix path "/config/sources/") "")) [
          | inl e ↦ rw e h
          | inr e ↦ rw e (change_source_closed _ m body a h)
        ]
