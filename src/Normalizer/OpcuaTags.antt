-- ===== src/Normalizer/OpcuaTags.antt =====
-- The tags of OPC UA messages in internal/normalizer/patterns.go. What keyValueRE finds is a
-- parameter: the first two groups of its matches, in their order.
use Prim.Native.Char.{Char, code}
use ot_collector.Prelude.{String, Bool, ◌||◌, [], ◌∷◌, Dict, insert, str_eq, ◌==◌, if◌then◌else◌}
use ot_collector.GoText.{to_lower, to_upper, contains, contains_any, equal_fold}
use ot_collector.Normalizer.Patterns.{is_opcua_message, refusals}

-- strings.Trim(v, `"`)
abbrev push_unquoted : Char → String → String
push_unquoted c String.[] = if code c == 34 then "" else String.◌∷◌ c ""
push_unquoted c (String.◌∷◌ d s) = String.◌∷◌ c (String.◌∷◌ d s)

unfoldable pub trim_quotes_left : String → String
trim_quotes_left String.[] = ""
trim_quotes_left (String.◌∷◌ c s) = if code c == 34 then trim_quotes_left s else String.◌∷◌ c s

unfoldable pub trim_quotes_right : String → String
trim_quotes_right String.[] = ""
trim_quotes_right (String.◌∷◌ c s) = push_unquoted c (trim_quotes_right s)

-- extractKeyValue, on the matches of keyValueRE in the message
unfoldable pub extract_key_value : Dict String → String → String
extract_key_value [] key = ""
extract_key_value ((found, v) ∷ rest) key =
    if equal_fold found key
    then trim_quotes_right (trim_quotes_left v)
    else extract_key_value rest key

-- detectSensitiveAction
unfoldable pub detect_sensitive_action : String → Bool
detect_sensitive_action msg = contains_any (to_lower msg) (
    "reset" ∷ "emergency" ∷ "stop" ∷ "start" ∷ "commandedemarrage" ∷ "safety" ∷ "relay" ∷ "valve"
    ∷ "vanne" ∷ "switch" ∷ "dcy" ∷ [])

abbrev insert_if : Bool → String → String → Dict String → Dict String
insert_if b k v tags = if b then insert k v tags else tags

-- The tags of the kind of an OPC UA message.
unfoldable pub tag_operation : String → Dict String → Dict String
tag_operation u tags =
    if contains u "[READ][CMD]"
    then insert "opcua_event_type" "CMD" (insert "opcua_operation" "READ" tags)
    else if contains u "[WRITE][CMD]"
    then insert "opcua_event_type" "CMD" (insert "opcua_operation" "WRITE" tags)
    else insert_if (contains u "[SHUTDOWN]") "opcua_event_type" "SHUTDOWN" (
        insert_if (contains u "[STARTUP]") "opcua_event_type" "STARTUP" (
          insert_if (contains u "[ERROR]") "opcua_event_type" "ERROR" (
            insert_if (contains u "[SECURITY]") "opcua_event_type" "SECURITY" (
              insert_if (contains u "[SESSION]") "opcua_event_type" "SESSION"
                (insert_if (contains u "[CMD]") "opcua_event_type" "CMD" tags)))))

-- if v := extractKeyValue(msg, key); v != "" { tags[name] = v }
unfoldable pub tag_value : Dict String → String → String → Dict String → Dict String
tag_value matches key name tags =
    let v = extract_key_value matches key in if str_eq v "" then tags else insert name v tags

-- The hints of the MITRE matrix.
unfoldable pub tag_tactic : String → String → Dict String → Dict String
tag_tactic u l tags =
    let t =
      if contains u "[CMD]"
      then insert "mitre_ics_technique_hint" "Manipulation of Control"
          (insert "mitre_ics_tactic" "Impair Process Control" tags)
      else tags in
    if contains_any l refusals || contains u "[SECURITY]"
    then insert "mitre_ics_technique_hint" "Unauthorized Access Attempt"
        (insert "mitre_ics_tactic" "Initial Access / Defense Evasion" t)
    else t

-- enrichOPCUATags, on a map that is not nil
unfoldable pub enrich_opcua_tags : (String → Dict String) → String → Dict String → Dict String
enrich_opcua_tags key_values msg tags =
    let u = to_upper msg in
    let m = key_values msg in
    if is_opcua_message msg
    then tag_tactic u (to_lower msg) (
        insert_if (detect_sensitive_action msg) "sensitive_action" "true" (
          tag_value m "Value" "value" (
            tag_value m "Mode" "mode" (
              tag_value m "Display" "display_name" (
                tag_value m "Browse" "browse_name" (
                  tag_value m "NodeId" "node_id"
                    (tag_value m "User" "user" (tag_operation u tags))))))))
    else tags
