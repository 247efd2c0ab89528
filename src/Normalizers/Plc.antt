-- ===== src/Normalizers/Plc.antt =====
-- internal/normalizers/plc.go. What syslogPrefixRE and plcUserRE match is a parameter: `strip` is
-- syslogPrefixRE.ReplaceAllString(s, ""), and `user_of` the first group of plcUserRE.
pub mod Users
use Prim.Native.String
use Prim.Native.String.{len}
use ot_collector.Prelude.{
  ℕ, zero, suc, ◌-◌, String, Bool, ◌||◌, Option, none, some, str_eq, if◌then◌else◌,
}
use ot_collector.GoText.{to_lower, contains, has_prefix, equal_fold}
use ot_collector.Event.{Event, set_tag}
use ot_collector.Normalizers.{rewrite_message}
use ot_collector.Normalizers.Cases.{clean_message_prefix}

-- strings.ReplaceAll of a text that is not empty; `skip` characters belong to a match already replaced.
unfoldable pub replace_from : String → String → ℕ → String → String
replace_from old new skip String.[] = ""
replace_from old new (suc skip) (String.◌∷◌ c s) = replace_from old new skip s
replace_from old new zero (String.◌∷◌ c s) =
    if has_prefix (String.◌∷◌ c s) old
    then String.◌++◌ new (replace_from old new (len old - 1) s)
    else String.◌∷◌ c (replace_from old new zero s)

-- The name that applyPLC gives to an asset by its address.
unfoldable pub plc_name : String → String → String
plc_name ip name =
    if str_eq ip "192.168.1.20"
    then "PLC1"
    else if str_eq ip "192.168.1.21"
    then "PLC2"
    else if str_eq ip "192.168.1.22"
    then "PLC3"
    else if str_eq ip "192.168.1.23"
    then "PLC4"
    else if str_eq ip "192.168.1.24"
    then "PLC5"
    else name

-- The first part of applyPLC.
unfoldable pub name_plc : Event → Event
name_plc evt =
    if str_eq evt.asset_name ""
      || (equal_fold evt.asset_name "unknown"
          || has_prefix (to_lower evt.asset_name) "labshock-plc")
    then record evt { asset_name = plc_name evt.asset_ip evt.asset_name }
    else evt

-- The cases of the switch of applyPLC.
pub data PlcMessage : Type 0 where
  login_attempt login_success user_logout started stopped other_message : PlcMessage

unfoldable pub message_kind : String → PlcMessage
message_kind clean =
    if contains clean "attempting to login"
    then login_attempt
    else if contains clean "login success"
    then login_success
    else if contains clean "user logout"
    then user_logout
    else if contains clean "plc started"
    then started
    else if contains clean "plc stopped"
    then stopped
    else other_message

abbrev pub classify : String → String → String → Event → Event
classify message category severity evt = record (rewrite_message message evt) {
  event_category = category;
  severity = severity;
}

module _ (strip : String → String) (user_of : String → Option String) where
  -- if m := plcUserRE.FindStringSubmatch(...); len(m) > 1 { ... }
  unfoldable pub tag_user : Event → Event
  tag_user evt = elim (user_of (clean_message_prefix strip evt.message)) [
    | none ↦ evt
    | some user ↦ set_tag "plc_user" user evt
  ]

  unfoldable pub apply_kind : PlcMessage → Event → Event
  apply_kind login_attempt evt = classify "plc_login_attempt" "access_control" "info" evt
  apply_kind login_success evt = tag_user (classify "plc_login_success" "access_control" "info" evt)
  apply_kind user_logout evt = classify "plc_user_logout" "operator_action" "info" evt
  apply_kind started evt = classify "plc_started" "system" "info" evt
  apply_kind stopped evt = classify "plc_stopped" "system" "warning" evt
  apply_kind other_message evt = evt

  -- applyPLC
  unfoldable pub apply_plc : Event → Event
  apply_plc evt =
      if str_eq evt.source_type "plc"
      then (let named = name_plc evt in
          let clean =
            replace_from "stoped" "stopped" zero
              (to_lower (clean_message_prefix strip named.message)) in
          apply_kind (message_kind clean) named)
      else evt
