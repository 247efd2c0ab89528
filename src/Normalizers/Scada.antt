-- ===== src/Normalizers/Scada.antt =====
-- internal/normalizers/scada.go. Its regular expressions are parameters: a match is what the code
-- reads of it, and MatchString is that there is a match.
pub mod Prefix
use ot_collector.Prelude.{
  is_some, String, Bool, true, false, ◌||◌, not, Option, none, some, List, [], ◌∷◌, str_eq,
  if◌then◌else◌,
}
use ot_collector.GoText.{to_lower, trim_space, contains, contains_any, equal_fold}
use ot_collector.Event.{Event, set_tag, or_default}
use ot_collector.Normalizers.{rewrite_message}
use ot_collector.Normalizers.Cases.{
  Case, set_tags, find_case, take_case, name_asset, when_source, clean_message_prefix,
}

-- The groups 1 to 4 of scadaQuotedConnectRE.
pub record Connect : Type 0 where
  pub single_quoted : String
  pub double_quoted : String
  pub unquoted : String
  pub address : String

-- scadaLinePrefixRE is `line_prefix`, the group of its match, and `without_line_prefix`,
-- ReplaceAllString(s, ""). Of the others, `read_memory_err` and `quoted_connected` give their one group,
-- and `econn_refused` its two.
pub record Expressions : Type 0 where
  pub line_prefix : String → Option String
  pub without_line_prefix : String → String
  pub quoted_connect : String → Option Connect
  pub quoted_connected : String → Option String
  pub read_memory_err : String → Option String
  pub econn_refused : String → Option (String × String)
  pub opcua_session : String → Bool
  pub opcua_subscribe : String → Bool
  pub opcua_conn_lost : String → Bool

-- A case with the rule's name as a tag, and further tags.
abbrev scada_case :
    String → String → String → Option String → List (String × String) → List String → Case
scada_case text rule category severity marks needles = record {
  needles = needles;
  text = text;
  category = category;
  severity = severity;
  marks = ("scada_match_rule", rule) ∷ marks;
}

-- The severity of a match of the line prefix.
unfoldable pub prefix_severity : String → String → String
prefix_severity group severity =
    if str_eq severity "info"
    then (let g = to_lower group in
        if str_eq g "error" || str_eq g "err"
        then "error"
        else if str_eq g "warn" || str_eq g "warning"
        then "warning"
        else severity)
    else severity

-- The cases by words that come after those by regular expressions, less the last one.
abbrev pub word_cases : List Case
word_cases =
    scada_case "scada_polling_overload" "polling_overload" "data_collection" (some "warning")
      (("noise_hint", "sample_candidate") ∷ [])
      ("working (connection || polling) overload" ∷ "polling overload" ∷ [])
    ∷ scada_case "scada_script_load_error" "script_load_error" "error" (some "error") []
        ("load.script" ∷ "script load error" ∷ [])
    ∷ scada_case "scada_opcua_connection_break" "opcua_connection_break" "pki_validation"
        (some "warning") [] ("connection_break" ∷ "opcua connection break" ∷ [])
    ∷ scada_case "scada_opcua_certificate_san_mismatch" "opcua_certificate_san_mismatch"
        "pki_validation" (some "warning") [] ("san mismatch" ∷ "node-opcua-w06" ∷ [])
    ∷ scada_case "scada_runtime_restart" "runtime_restart" "project_activity" none []
        ("runtime.update-project: restart" ∷ "runtime restart" ∷ [])
    ∷ scada_case "scada_settings_updated" "settings_updated" "operator_action" none []
        ("settings updated" ∷ "server settings changed" ∷ [])
    ∷ scada_case "scada_user_created" "user_created" "access_control" none [] ("user created" ∷ [])
    ∷ scada_case "scada_connection_timeout" "connection_timeout" "data_collection" (some "warning")
        [] ("connection timeout" ∷ "transaction timeout" ∷ [])
    ∷ []

-- The tags of the last case, which rewrites nothing.
abbrev ping_tags : List (String × String)
ping_tags =
    ("scada_match_rule", "validation_ping")
    ∷ ("test_event", "true")
    ∷ ("noise_hint", "drop_candidate")
    ∷ []

-- The end of the switch.
unfoldable pub word_switch : String → Event → Event
word_switch l evt = elim (find_case word_cases l) [
  | some c ↦ take_case c evt
  | none ↦ if contains_any l ("validation ping" ∷ []) then set_tags ping_tags evt else evt
]

-- The first of the quoted texts that is not blank.
unfoldable pub connect_target : Connect → String
connect_target m =
    let a = trim_space m.single_quoted in
    let b = trim_space m.double_quoted in
    if not (str_eq a "") then a else if not (str_eq b "") then b else trim_space m.unquoted

-- The tags of a match of scadaQuotedConnectRE.
unfoldable pub tag_connect : Option Connect → Event → Event
tag_connect none evt = evt
tag_connect (some m) evt =
    let target = connect_target m in
    let e = if str_eq target "" then evt else set_tag "target" target evt in
    set_tag "target_ip" (trim_space m.address) e

-- The case of an attempt to connect.
unfoldable pub connection_attempt : String → Option Connect → Event → Event
connection_attempt text m evt =
    let e =
      if str_eq evt.message "scada_plc_connection_attempt"
      then evt
      else (record (set_tag "original_message" (trim_space text) evt) {
        message = "scada_plc_connection_attempt";
      }) in
    tag_connect m (record (set_tag "scada_match_rule" "plc_connection_attempt" e) {
      event_category = "data_collection";
    })

-- rewriteMessage, evt.Tags["scada_match_rule"] = rule and evt.EventCategory = "data_collection"
abbrev pub collect : String → String → Event → Event
collect text rule evt = record (set_tag "scada_match_rule" rule (rewrite_message text evt)) {
  event_category = "data_collection";
}

abbrev pub tag_target : Option String → Event → Event
tag_target none evt = evt
tag_target (some m) evt = set_tag "target" (trim_space m) evt

-- The case of an error of reading a PLC's memory.
unfoldable pub read_memory_error : Option String → Event → Event
read_memory_error m evt =
    let e = collect "scada_plc_read_memory_error" "plc_read_memory_error" evt in
    tag_target m (
      if str_eq e.severity "info" || str_eq e.severity ""
      then record e { severity = "error" }
      else e)

abbrev opcua_target : Event → Event
opcua_target evt = set_tag "target" "opcua" evt

abbrev target_of : Option String → String
target_of none = ""
target_of (some m) = trim_space m

-- The case of a connection made.
unfoldable pub connected : Option String → Event → Event
connected m evt =
    let e = tag_target m evt in
    if equal_fold (target_of m) "opcua"
    then collect "scada_opcua_connected" "opcua_connected" e
    else collect "scada_plc_connected" "plc_connected" e

-- The case of a connection refused.
unfoldable pub connection_refused : Option (String × String) → Event → Event
connection_refused m evt =
    let e = record (collect "scada_plc_connection_refused" "plc_connection_refused" evt) {
      severity = "error";
    } in
    elim m [
      | none ↦ e
      | some (ip, port) ↦
          set_tag "target_port" (trim_space port) (set_tag "target_ip" (trim_space ip) e)
    ]

-- The last lines of applySCADA.
unfoldable pub hint_noise : Event → Event
hint_noise evt =
    if contains_any evt.message (
      "scada_api_heartbeat" ∷ "scada_forwarder_heartbeat" ∷ "daqstorage" ∷ "plugin-installed"
      ∷ "scada_socket_client_connected" ∷ [])
    then set_tag "noise_hint" "sample_candidate" evt
    else evt

-- The cases of the switch, with what their expressions match in the text as it came.
pub data ScadaLine : Type 0 where
  runtime_started opcua_subscription opcua_lost opcua_closed plc1_connected : ScadaLine
  memory_error name_connected : Option String → ScadaLine
  attempt : Option Connect → ScadaLine
  refused : Option (String × String) → ScadaLine
  words : ScadaLine

-- The body of a case, for the lower-case text `l` and the text as it came.
unfoldable pub apply_line : String → String → ScadaLine → Event → Event
apply_line l text runtime_started evt =
    record (collect "scada_runtime_started" "runtime_started" evt) {
      event_category = "system_health";
    }
apply_line l text (memory_error m) evt = read_memory_error m evt
apply_line l text (attempt m) evt = connection_attempt text m evt
apply_line l text (name_connected m) evt = connected m evt
apply_line l text plc1_connected evt =
    set_tag "target" "PLC1" (collect "scada_plc_connected" "plc1_connected_legacy" evt)
apply_line l text opcua_subscription evt =
    opcua_target (collect "scada_opcua_subscription_created" "opcua_subscription_created" evt)
apply_line l text opcua_lost evt = set_tag "alert_candidate" "true" (
    opcua_target (record (collect "scada_opcua_connection_lost" "opcua_connection_lost" evt) {
      severity = "error";
    }))
apply_line l text opcua_closed evt =
    opcua_target (record (collect "scada_opcua_session_closed" "opcua_session_closed" evt) {
      severity = "warning";
    })
apply_line l text (refused m) evt = connection_refused m evt
apply_line l text words evt = word_switch l evt

module _ (re : Expressions) where
  -- Which case it is.
  unfoldable pub line_of : String → String → ScadaLine
  line_of l text =
      if contains_any l ("fuxa started" ∷ [])
      then runtime_started
      else if is_some (re.read_memory_err l)
      then memory_error (re.read_memory_err text)
      else if is_some (re.quoted_connect l)
      then attempt (re.quoted_connect text)
      else if is_some (re.quoted_connected l)
      then name_connected (re.quoted_connected text)
      else if contains l "'plc1' connected"
      then plc1_connected
      else if re.opcua_subscribe l || contains l "'opcua' subscription created"
      then opcua_subscription
      else if re.opcua_conn_lost l
      then opcua_lost
      else if re.opcua_session l
      then opcua_closed
      else if is_some (re.econn_refused l)
      then refused (re.econn_refused text)
      else words

  -- The switch.
  unfoldable pub scada_switch : String → String → Event → Event
  scada_switch l text evt = apply_line l text (line_of l text) evt

  -- applySCADA after the guard and the defaults, for the text without the prefix of the syslog.
  unfoldable pub normalize_line : String → Event → Event
  normalize_line text evt =
      let l = to_lower text in
      hint_noise (elim (re.line_prefix l) [
        | none ↦ scada_switch l text evt
        | some group ↦
            scada_switch (re.without_line_prefix l) (re.without_line_prefix text)
              (record evt { severity = prefix_severity group evt.severity })
      ])

  unfoldable pub normalize_scada : (String → String) → Event → Event
  normalize_scada strip evt =
      let named = name_asset "FUXA SCADA" evt in
      let e = record named { asset_ip = or_default named.asset_ip "192.168.1.60" } in
      normalize_line (clean_message_prefix strip e.message) e

  -- applySCADA
  unfoldable pub apply_scada : (String → String) → Event → Event
  apply_scada strip = when_source "scada" (normalize_scada strip)
