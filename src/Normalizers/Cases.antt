-- ===== src/Normalizers/Cases.antt =====
-- The switches of the normalizers in internal/normalizers, case by case, and cleanMessagePrefix of
-- common.go. `strip` is syslogPrefixRE.ReplaceAllString(s, "").
use ot_collector.Prelude.{
  String, ◌||◌, Option, none, some, List, [], ◌∷◌, Dict, str_eq, if◌then◌else◌,
}
use ot_collector.GoText.{trim_space, contains_any, equal_fold}
use ot_collector.Event.{Event, set_tag}
use ot_collector.Normalizers.{rewrite_message}

-- cleanMessagePrefix
unfoldable pub clean_message_prefix : (String → String) → String → String
clean_message_prefix strip s = trim_space (strip (trim_space s))

-- A case of a switch on what the message contains: its words, the message and the category that it
-- sets, the severity if it sets one, and its tags.
pub record Case : Type 0 where
  pub needles : List String
  pub text : String
  pub category : String
  pub severity : Option String
  pub marks : Dict String

unfoldable pub set_tags : Dict String → Event → Event
set_tags [] evt = evt
set_tags ((k, v) ∷ rest) evt = set_tags rest (set_tag k v evt)

-- evt.Severity = s
abbrev pub set_severity : Option String → Event → Event
set_severity none evt = evt
set_severity (some s) evt = record evt { severity = s }

-- The body of a case.
unfoldable pub take_case : Case → Event → Event
take_case c evt =
    set_tags c.marks (
      set_severity c.severity (record (rewrite_message c.text evt) { event_category = c.category }))

-- The first case one of whose words `l` contains.
unfoldable pub find_case : List Case → String → Option Case
find_case [] l = none
find_case (c ∷ cs) l = if contains_any l c.needles then some c else find_case cs l

-- switch { case containsAny(l, ...): ... }
unfoldable pub switch : List Case → String → Event → Event
switch cases l evt = elim (find_case cases l) [ none ↦ evt | some c ↦ take_case c evt ]

-- if evt.AssetName == "" || strings.EqualFold(evt.AssetName, "unknown") { evt.AssetName = name }
unfoldable pub name_asset : String → Event → Event
name_asset name evt =
    if str_eq evt.asset_name "" || equal_fold evt.asset_name "unknown"
    then record evt { asset_name = name }
    else evt

-- if evt.SourceType != t { return }
unfoldable pub when_source : String → (Event → Event) → Event → Event
when_source t body evt = if str_eq evt.source_type t then body evt else evt

abbrev pub a_case : String → String → Case
a_case word category = record {
  needles = word ∷ [];
  text = word;
  category = category;
  severity = none;
  marks = [];
}

abbrev pub a_severe_case : String → String → String → Case
a_severe_case word category severity = record (a_case word category) { severity = some severity }
