-- ===== src/Filter/Match.antt =====
-- When a rule of internal/filter/engine.go matches an event, and the keys of its counters.
use ot_collector.Prelude.{
  String, Bool, true, false, ◌&&◌, ◌||◌, none, some, [], ◌∷◌, str_eq, if◌then◌else◌,
}
use ot_collector.GoText.{to_lower, to_upper, trim_space, replace_byte, contains, join}
use ot_collector.Event.{Event, tag?, tag}
use ot_collector.Config.Rules.{RuleConfig}

unfoldable pub operation_for : Event → String
operation_for evt =
    let op = tag evt "opcua_operation" in
    if str_eq op "" then to_upper (tag evt "operation") else to_upper op

unfoldable pub comparable_value : String → String
comparable_value v =
    let w = replace_byte "-" "_" (trim_space (to_lower v)) in
    if str_eq w "warn" then "warning" else w

unfoldable pub match_field : String → String → Bool
match_field rule_value event_value =
    let rv = comparable_value rule_value in
    str_eq rv "*" || str_eq rv "" || str_eq rv (comparable_value event_value)

unfoldable pub message_contains : Event → String → Bool
message_contains evt needle =
    let n = to_lower (trim_space needle) in
    if str_eq n "" || str_eq n "*"
    then true
    else contains (to_lower (join (evt.message ∷ evt.raw ∷ []) " ")) n

unfoldable pub match_tag : RuleConfig → Event → Bool
match_tag rule evt =
    let key = trim_space rule.tag_key in
    if str_eq key "" || str_eq key "*"
    then true
    else (elim (tag? evt key) [ none ↦ false | some value ↦ match_field rule.tag_value value ])

unfoldable pub rule_show_in_ui : RuleConfig → Bool
rule_show_in_ui rule = elim rule.show_in_ui [ none ↦ true | some show ↦ show ]

-- The guards of the loop of applyRules: the rule is enabled and no guard skips it.
unfoldable pub matches : RuleConfig → Event → Bool
matches rule evt =
    rule.enabled
    && match_field rule.source_type evt.source_type
    && (match_field rule.asset evt.asset_name || match_field rule.asset evt.asset_ip)
    && match_field rule.category evt.event_category
    && match_field rule.severity evt.severity
    && match_field rule.operation (operation_for evt)
    && match_field rule.event_type (tag evt "event_type")
    && (str_eq rule.message_contains "" || message_contains evt rule.message_contains)
    && match_tag rule evt

unfoldable pub rate_key : RuleConfig → Event → String
rate_key rule evt =
    let source = if str_eq evt.asset_ip "" then evt.asset_name else evt.asset_ip in
    join (rule.id ∷ (if str_eq source "" then evt.source_type else source) ∷ []) "|"

unfoldable pub dedup_key : RuleConfig → Event → String → String
dedup_key rule evt operation =
    join
      (rule.id
        ∷ evt.asset_ip
        ∷ evt.asset_name
        ∷ evt.source_type
        ∷ evt.event_category
        ∷ evt.severity
        ∷ operation
        ∷ tag evt "event_type"
        ∷ evt.message
        ∷ [])
      "|"

-- The key of the sample counter.
unfoldable pub sample_key : RuleConfig → Event → String
sample_key rule evt =
    join (rule.id ∷ evt.asset_ip ∷ evt.asset_name ∷ evt.event_category ∷ evt.message ∷ []) "|"
