-- ===== src/Normalizers/Apply/Lines.antt =====
-- What applySCADA keeps.
use ot_collector.Prelude.{
  ◌≡◌, refl, true, false, ◌||◌, if◌then◌else◌, String, Bool, Option, none, some, Option-cases, inl,
  inr, str_eq,
}
use ot_collector.GoText.{to_lower}
use ot_collector.Event.{Event}
use ot_collector.Normalizers.Completeness.{is_odd}
use ot_collector.Normalizers.Cases.{find_case}
use ot_collector.Normalizers.Scada.{
  ScadaLine, runtime_started, opcua_subscription, opcua_lost, opcua_closed, plc1_connected,
  memory_error, name_connected, attempt, refused, words, apply_line, line_of, Connect, Expressions,
  word_cases, word_switch, tag_connect, connection_attempt, tag_target, read_memory_error, collect,
  connected, connection_refused, hint_noise, scada_switch, normalize_line, normalize_scada,
  apply_scada, prefix_severity,
}
use ot_collector.Normalizers.Apply.Kept.{
  Kept, Kept-refl, Kept-trans, Kept-if, Kept-address, Kept-category, Kept-message, Kept-severity,
  Kept-set_tag, Kept-set_tags, Kept-rewrite_message, Kept-name_asset, Kept-when_source,
  Kept-take_case, find_case-full,
}

Kept-word_switch : (l : String) (e : Event) → Kept e (word_switch l e)
unfolding word_switch
Kept-word_switch l e = elim (Option-cases (find_case word_cases l)) [
  | inl nothing ↦ rw (word_switch, nothing) (Kept-if _ (Kept-set_tags _ e) (Kept-refl e))
  | inr (c, at) ↦ rw (word_switch, at) (Kept-take_case c e (find_case-full word_cases l refl c at))
]

Kept-tag_connect : (m : Option Connect) (e : Event) → Kept e (tag_connect m e)
unfolding tag_connect
Kept-tag_connect none e = Kept-refl e
Kept-tag_connect (some m) e =
    Kept-trans (Kept-if _ (Kept-refl e) (Kept-set_tag "target" _ e)) (Kept-set_tag "target_ip" _ _)

Kept-connection_attempt :
    (text : String) (m : Option Connect) (e : Event) → Kept e (connection_attempt text m e)
unfolding connection_attempt
Kept-connection_attempt text m e =
    Kept-trans
      (Kept-if _ (Kept-refl e) (
        Kept-trans (Kept-set_tag "original_message" _ e)
          (Kept-message _ "scada_plc_connection_attempt")))
      (Kept-trans (Kept-set_tag "scada_match_rule" _ _)
        (Kept-trans (Kept-category _ "data_collection") (Kept-tag_connect m _)))

Kept-collect : (text rule : String) (e : Event) → Kept e (collect text rule e)
Kept-collect text rule e =
    Kept-trans (Kept-rewrite_message text e)
      (Kept-trans (Kept-set_tag "scada_match_rule" rule _) (Kept-category _ "data_collection"))

Kept-collect_as :
    (text rule severity : String) (e : Event)
    → is_odd severity ≡ false
    → Kept e (record (collect text rule e) { severity = severity })
Kept-collect_as text rule severity e h =
    Kept-trans (Kept-collect text rule e) (Kept-severity _ severity h)

Kept-tag_target : (m : Option String) (e : Event) → Kept e (tag_target m e)
Kept-tag_target none e = Kept-refl e
Kept-tag_target (some m) e = Kept-set_tag "target" _ e

Kept-read_memory_error : (m : Option String) (e : Event) → Kept e (read_memory_error m e)
unfolding read_memory_error
Kept-read_memory_error m e =
    Kept-trans (Kept-collect "scada_plc_read_memory_error" "plc_read_memory_error" e)
      (Kept-trans (Kept-if _ (Kept-severity _ "error" refl) (Kept-refl _)) (Kept-tag_target m _))

Kept-connected : (m : Option String) (e : Event) → Kept e (connected m e)
unfolding connected
Kept-connected m e =
    Kept-trans (Kept-tag_target m e) (Kept-if _ (Kept-collect _ _ _) (Kept-collect _ _ _))

Kept-connection_refused :
    (m : Option (String × String)) (e : Event) → Kept e (connection_refused m e)
unfolding connection_refused
Kept-connection_refused none e = Kept-collect_as _ _ "error" e refl
Kept-connection_refused (some (ip, port)) e =
    Kept-trans (Kept-collect_as _ _ "error" e refl)
      (Kept-trans (Kept-set_tag "target_ip" _ _) (Kept-set_tag "target_port" _ _))

Kept-hint_noise : (e : Event) → Kept e (hint_noise e)
unfolding hint_noise
Kept-hint_noise e = Kept-if _ (Kept-set_tag _ _ e) (Kept-refl e)

Kept-apply_line : (l text : String) (k : ScadaLine) (e : Event) → Kept e (apply_line l text k e)
unfolding apply_line
Kept-apply_line l text runtime_started e =
    Kept-trans (Kept-collect "scada_runtime_started" "runtime_started" e)
      (Kept-category _ "system_health")
Kept-apply_line l text (memory_error m) e = Kept-read_memory_error m e
Kept-apply_line l text (attempt m) e = Kept-connection_attempt text m e
Kept-apply_line l text (name_connected m) e = Kept-connected m e
Kept-apply_line l text plc1_connected e =
    Kept-trans (Kept-collect "scada_plc_connected" "plc1_connected_legacy" e)
      (Kept-set_tag "target" "PLC1" _)
Kept-apply_line l text opcua_subscription e =
    Kept-trans (Kept-collect "scada_opcua_subscription_created" "opcua_subscription_created" e)
      (Kept-set_tag "target" "opcua" _)
Kept-apply_line l text opcua_lost e =
    Kept-trans
      (Kept-collect_as "scada_opcua_connection_lost" "opcua_connection_lost" "error" e refl)
      (Kept-trans (Kept-set_tag "target" "opcua" _) (Kept-set_tag "alert_candidate" "true" _))
Kept-apply_line l text opcua_closed e =
    Kept-trans
      (Kept-collect_as "scada_opcua_session_closed" "opcua_session_closed" "warning" e refl)
      (Kept-set_tag "target" "opcua" _)
Kept-apply_line l text (refused m) e = Kept-connection_refused m e
Kept-apply_line l text words e = Kept-word_switch l e

record IsFull (s : String) : Type 0 where
  plain : is_odd s ≡ false

IsFull-if : {s t : String} (b : Bool) → IsFull s → IsFull t → IsFull (if b then s else t)
IsFull-if true x y = x
IsFull-if false x y = y

prefix_severity-IsFull :
    (group severity : String) → IsFull severity → IsFull (prefix_severity group severity)
unfolding prefix_severity
prefix_severity-IsFull group severity h =
    let error : IsFull "error" = record { plain = refl } in
    let warning : IsFull "warning" = record { plain = refl } in
    IsFull-if (str_eq severity "info")
      (IsFull-if (str_eq (to_lower group) "error" || str_eq (to_lower group) "err") error
        (IsFull-if (str_eq (to_lower group) "warn" || str_eq (to_lower group) "warning") warning h))
      h

Kept-prefix :
    (group : String) (e : Event) → Kept e (record e { severity = prefix_severity group e.severity })
Kept-prefix group e = record {
  same = refl;
  full = λ h. (prefix_severity-IsFull group e.severity (record { plain = h })).plain;
}

module _ (re : Expressions) where
  Kept-scada_switch : (l text : String) (e : Event) → Kept e (scada_switch re l text e)
  unfolding scada_switch
  Kept-scada_switch l text e = Kept-apply_line l text (line_of re l text) e

  Kept-normalize_line : (text : String) (e : Event) → Kept e (normalize_line re text e)
  unfolding normalize_line
  Kept-normalize_line text e = elim (Option-cases (re.line_prefix (to_lower text))) [
    | inl nothing ↦
        rw (normalize_line, nothing)
          (Kept-trans (Kept-scada_switch (to_lower text) text e) (Kept-hint_noise _))
    | inr (group, found) ↦
        rw (normalize_line, found)
          (Kept-trans (Kept-prefix group e)
            (Kept-trans (Kept-scada_switch _ _ _) (Kept-hint_noise _)))
  ]

  pub Kept-apply_scada : (strip : String → String) (e : Event) → Kept e (apply_scada re strip e)
  unfolding apply_scada normalize_scada
  Kept-apply_scada strip e = Kept-when_source "scada" _ e (
      Kept-trans (Kept-name_asset "FUXA SCADA" e)
        (Kept-trans (Kept-address _ _) (Kept-normalize_line _ _)))
