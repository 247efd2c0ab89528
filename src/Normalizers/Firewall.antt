-- ===== src/Normalizers/Firewall.antt =====
-- internal/normalizers/firewall.go.
pub mod Alerts
use ot_collector.Prelude.{String, ◌||◌, str_eq, if◌then◌else◌}
use ot_collector.GoText.{to_lower, trim_space, contains, equal_fold}
use ot_collector.Event.{Event, tag, set_tag}
use ot_collector.Normalizers.{rewrite_message}
use ot_collector.Normalizers.Cases.{when_source}

-- The first part of applyFirewall.
unfoldable pub name_firewall : Event → Event
name_firewall evt =
    if str_eq evt.asset_name ""
      || (equal_fold evt.asset_name "unknown" || contains (to_lower evt.asset_name) "firewall")
    then record evt { asset_name = "OPNsense OT Firewall" }
    else evt

-- The action, from its tag or from the message.
unfoldable pub firewall_action : Event → String
firewall_action evt =
    let tagged = to_lower (trim_space (tag evt "action")) in
    let l = to_lower evt.message in
    if str_eq tagged ""
    then if contains l "firewall_block"
      then "block"
      else if contains l "firewall_reject"
      then "reject"
      else if contains l "firewall_pass"
      then "pass"
      else ""
    else tagged

-- The cases block and reject.
unfoldable pub refuse : String → Event → Event
refuse message evt =
    let e = record (rewrite_message message evt) { event_category = "security" } in
    if str_eq e.severity "info" || str_eq e.severity ""
    then record e { severity = "warning" }
    else e

-- The case pass.
unfoldable pub let_pass : Event → Event
let_pass evt =
    let e = rewrite_message "firewall_pass" evt in
    if str_eq e.event_category "" || str_eq e.event_category "system"
    then record e { event_category = "network_traffic" }
    else e

unfoldable pub act_on : String → Event → Event
act_on action evt =
    if str_eq action "block"
    then refuse "firewall_block" evt
    else if str_eq action "reject"
    then refuse "firewall_reject" evt
    else if str_eq action "pass"
    then let_pass evt
    else evt

-- if evt.Tags[k] != "" { evt.Tags[j] = evt.Tags[k] }
unfoldable pub copy_tag : String → String → Event → Event
copy_tag k j evt = if str_eq (tag evt k) "" then evt else set_tag j (tag evt k) evt

unfoldable pub normalize_firewall : Event → Event
normalize_firewall evt =
    let named = name_firewall evt in
    let action = firewall_action named in
    let e = if str_eq action "" then named else set_tag "action" action named in
    copy_tag "dst_ip" "destination_ip" (copy_tag "src_ip" "source_ip" (act_on action e))

-- applyFirewall
unfoldable pub apply_firewall : Event → Event
apply_firewall = when_source "firewall" normalize_firewall
