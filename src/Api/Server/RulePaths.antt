-- ===== src/Api/Server/RulePaths.antt =====
-- Requests below /config/rules/, through the routing table.
use Prim.Native.String.{slice}
use text.Mathlib.TextPositions.{slice-append_right, len-append}
use ot_collector.Prelude.{
  ℕ, ◌≡◌, ap, ◌∙◌, String, Dict, true, false, Option, some, str_eq, if◌then◌else◌, Bool-cases, inl,
  inr,
}
use ot_collector.GoText.{trim_prefix}
use ot_collector.Api.{Api, Method, change_rule, handle_config_rule_by_id}
use ot_collector.Api.Events.{handle_config_rules_test}
use ot_collector.Api.Routes.{is_clean, route, config_rules_test, config_rule_by_id}
use ot_collector.Api.Routes.Below.{below_rules, route-below_rules, below_itself}
use ot_collector.Api.Server.{Request, Formats, Turn, serve_route, serve}

id_of_path : (id : String) → trim_prefix (below_rules id) "/config/rules/" ≡ id
unfolding trim_prefix
id_of_path id = rw (below_itself id) (
    ap (slice (below_rules id) 14) (len-append "/config/rules/" id)
    ∙ slice-append_right "/config/rules/" id)

abbrev pub at_rule : Method → String → Dict String → Option String → Request
at_rule method id url body = record {
  method = method;
  path = below_rules id;
  url = url;
  body = body;
}

below_rules_test :
    (id : String) → str_eq "test" id ≡ true → route (below_rules id) ≡ some config_rules_test
below_rules_test id e = route-below_rules id ∙ rw e

below_one_rule :
    (id : String) → str_eq "test" id ≡ false → route (below_rules id) ≡ some config_rule_by_id
below_one_rule id e = route-below_rules id ∙ rw e

module _ (f : Formats) (t : Turn) (method : Method) (url : Dict String) (body : Option String)
    (a : Api) where
  -- What is done with the rule that a path names.
  unfoldable pub to_rule : String → Api × Option ℕ
  to_rule id =
      if str_eq id ""
      then (a, some 400)
      else (let (b, s) = change_rule f.rules t.write id method (f.one_rule body) a in (b, some s))

  unfoldable pub to_rules_test : Api × Option ℕ
  to_rules_test =
      let (b, s, d) = handle_config_rules_test method (f.tested_event body) t.now a in (b, some s)

  handle_one :
      (id : String)
      → (let (b, s) =
            handle_config_rule_by_id f.rules t.write (below_rules id) method (f.one_rule body) a in
          (b, some s))
        ≡ to_rule id
  unfolding to_rule handle_config_rule_by_id
  handle_one id = elim (Bool-cases (str_eq id "")) [
    | inl blank ↦ rw (handle_config_rule_by_id, id_of_path id, to_rule, blank)
    | inr named ↦ rw (handle_config_rule_by_id, id_of_path id, to_rule, named)
  ]

  -- A request to a path below /config/rules/ that ServeMux does not redirect, since no element of it is
  -- "." or ".." or, before its end, empty, goes, whatever its method and body, to the handler of the
  -- rule whose id is the rest of the path, and is refused with 400 if that is empty; but at the id
  -- "test" it is taken for a test of the rules, so that a rule of this id cannot be changed or deleted
  -- by its id.
  pub serve-to_rule :
      (id : String)
      → is_clean (below_rules id) ≡ true
      → serve f t (at_rule method id url body) a
        ≡ (if str_eq "test" id then to_rules_test else to_rule id)
  unfolding serve serve_route to_rule to_rules_test handle_config_rule_by_id
  serve-to_rule id clean = elim (Bool-cases (str_eq "test" id)) [
    | inl e ↦ rw (serve, clean, below_rules_test id e, e)
    | inr e ↦ rw (serve, clean, below_one_rule id e, e, handle_one id)
  ]
