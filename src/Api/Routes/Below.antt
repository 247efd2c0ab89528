-- ===== src/Api/Routes/Below.antt =====
-- The paths below /config/rules/.
use Prim.Native.String
use Prim.Native.String.{slice}
use text.Mathlib.TextEquality.{starts_with_iff}
use text.Mathlib.TextLemmas.{append_cancel_left, append_assoc}
use text.Mathlib.TextPositions.{slice-append_left}
use ot_collector.Prelude.{
  ◌≡◌, refl, sym, ap, ◌∙◌, String, Bool, true, false, Option, none, some, List, [], ◌∷◌, ◌++◌, all,
  take, drop, not, ◌&&◌, str_eq, if◌then◌else◌, eq_iff, Bool-cases, inl, inr, arith,
}
use ot_collector.GoText.{has_prefix}
use ot_collector.Api.Routes.{
  Route, web, config_rules_test, config_rule_by_id, config_source_by_id, patterns, ends_in_slash,
  matches, longest, longer, route,
}

abbrev pub below_rules : String → String
below_rules id = String.◌++◌ "/config/rules/" id

-- A text that does not start as the path does is not the path.
other_text :
    (p id : String)
    → str_eq (slice p 0 14) "/config/rules/" ≡ false
    → str_eq p (below_rules id) ≡ false
other_text p id h = elim (Bool-cases (str_eq p (below_rules id))) [
  | inl e ↦
      let start =
        ap (λ (t : String). slice t 0 14) ((eq_iff p (below_rules id)).0 e)
        ∙ slice-append_left "/config/rules/" id in
      let same = (eq_iff (slice p 0 14) "/config/rules/").1 start in cc
  | inr e ↦ e
]

same_start : (id rest : String) → str_eq (below_rules rest) (below_rules id) ≡ str_eq rest id
same_start id rest = ground (
  arith,
  eq_iff rest id,
  eq_iff (below_rules rest) (below_rules id),
  append_cancel_left "/config/rules/" rest id,
)

below_root : (id : String) → has_prefix (below_rules id) "/" ≡ true
below_root id =
    (starts_with_iff (below_rules id) "/").1
      (String.◌++◌ "config/rules/" id, sym (append_assoc "/" "config/rules/" id))

pub below_itself : (id : String) → has_prefix (below_rules id) "/config/rules/" ≡ true
below_itself id = (starts_with_iff (below_rules id) "/config/rules/").1 (id, refl)

not_below_sources : (id : String) → has_prefix (below_rules id) "/config/sources/" ≡ false
not_below_sources id = elim (Bool-cases (has_prefix (below_rules id) "/config/sources/")) [
  | inl e ↦
      let (rest, at) = (starts_with_iff (below_rules id) "/config/sources/").0 e in
      let ninth =
        sym (slice-append_left "/config/s" (String.◌++◌ "ources/" rest))
        ∙ ap (λ (t : String). slice t 0 9)
            (sym (append_assoc "/config/s" "ources/" rest)
              ∙ at
              ∙ append_assoc "/config/r" "ules/" id)
        ∙ slice-append_left "/config/r" (String.◌++◌ "ules/" id) in
      let same = (eq_iff "/config/s" "/config/r").1 ninth in cc
  | inr e ↦ e
]

-- A pattern of another start, for no subtree.
abbrev is_apart : String × Route → Bool
is_apart x = not (ends_in_slash x.0) && not (str_eq (slice x.0 0 14) "/config/rules/")

skip :
    (x : String × Route) (rest : List (String × Route)) (path : String)
    → matches x.0 path ≡ false
    → longest (x ∷ rest) path ≡ longest rest path
unfolding longest
skip x rest path h = rw h

keep :
    (x : String × Route) (rest : List (String × Route)) (path : String)
    → matches x.0 path ≡ true
    → longest (x ∷ rest) path ≡ some (longer x (longest rest path))
unfolding longest
keep x rest path h = rw h

apart_unmatched :
    (id : String) (x : String × Route) → is_apart x ≡ true → matches x.0 (below_rules id) ≡ false
unfolding matches
apart_unmatched id x h = let other = other_text x.0 id in ground arith

skip_all :
    (id : String) (xs rest : List (String × Route))
    → all is_apart xs ≡ true
    → longest (xs ++ rest) (below_rules id) ≡ longest rest (below_rules id)
skip_all id [] rest h = refl
skip_all id (x ∷ xs) rest h =
    skip x (xs ++ rest) (below_rules id) (apart_unmatched id x (ground arith))
    ∙ skip_all id xs rest (ground arith)

slash_matches : (id : String) → matches "/" (below_rules id) ≡ true
unfolding matches ends_in_slash
slash_matches id = let under = below_root id in ground arith

last_two : (id : String) → longest (drop 14 patterns) (below_rules id) ≡ some ("/", web)
unfolding patterns matches ends_in_slash longest longer
last_two id =
    skip_all id (take 6 (drop 14 patterns)) (drop 20 patterns) refl
    ∙ keep ("/", web) [] (below_rules id) (slash_matches id)

exactly_test : (id : String) → matches "/config/rules/test" (below_rules id) ≡ str_eq "test" id
unfolding matches ends_in_slash
exactly_test id = let same = same_start id "test" in ground arith

rule_itself : (id : String) → matches "/config/rules/" (below_rules id) ≡ true
unfolding matches ends_in_slash
rule_itself id = let under = below_itself id in ground arith

not_a_source : (id : String) → matches "/config/sources/" (below_rules id) ≡ false
unfolding matches ends_in_slash
not_a_source id =
    let under = not_below_sources id in
    let other = other_text "/config/sources/" id refl in ground arith

-- The pattern that ServeMux takes.
abbrev taken : String → String × Route
taken id =
    if str_eq "test" id
    then ("/config/rules/test", config_rules_test)
    else ("/config/rules/", config_rule_by_id)

from_rules : (id : String) → longest (drop 12 patterns) (below_rules id) ≡ some (taken id)
unfolding patterns longer
from_rules id = elim (Bool-cases (str_eq "test" id)) [
  | inl e ↦
      keep ("/config/rules/", config_rule_by_id) (drop 13 patterns) (below_rules id)
        (rule_itself id)
      ∙ ap (λ o. some (longer ("/config/rules/", config_rule_by_id) o))
          (keep ("/config/rules/test", config_rules_test) (drop 14 patterns) (below_rules id)
              (exactly_test id ∙ e)
            ∙ ap (λ o. some (longer ("/config/rules/test", config_rules_test) o)) (last_two id))
      ∙ rw e refl
  | inr e ↦
      keep ("/config/rules/", config_rule_by_id) (drop 13 patterns) (below_rules id)
        (rule_itself id)
      ∙ ap (λ o. some (longer ("/config/rules/", config_rule_by_id) o))
          (skip ("/config/rules/test", config_rules_test) (drop 14 patterns) (below_rules id)
              (exactly_test id ∙ e)
            ∙ last_two id)
      ∙ rw e refl
]

-- Every path below /config/rules/ is one rule's, except that of the rule whose id is "test".
pub route-below_rules :
    (id : String)
    → route (below_rules id)
      ≡ some (if str_eq "test" id then config_rules_test else config_rule_by_id)
unfolding route longest patterns ends_in_slash
route-below_rules id =
    ap
      (λ o. elim o as (λ (x : Option (String × Route)). Option Route) [
        | none ↦ none
        | some (pattern, r) ↦ some r
      ])
      (skip_all id (take 10 patterns) (drop 10 patterns) refl
        ∙ skip ("/config/sources/", config_source_by_id) (drop 11 patterns) (below_rules id)
            (not_a_source id)
        ∙ skip_all id (take 1 (drop 11 patterns)) (drop 12 patterns) refl
        ∙ from_rules id)
    ∙ elim (Bool-cases (str_eq "test" id)) [ inl e ↦ rw e | inr e ↦ rw e ]
