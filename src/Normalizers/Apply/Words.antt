-- ===== src/Normalizers/Apply/Words.antt =====
-- What the normalizers of the sources whose messages are classified by words keep.
use ot_collector.Prelude.{◌≡◌, refl, true, false, List, String, Option, Option-cases, inl, inr}
use ot_collector.Event.{Event, tag}
use ot_collector.Normalizers.Completeness.{is_odd}
use ot_collector.Normalizers.Cases.{Case, name_asset, clean_message_prefix}
use ot_collector.Normalizers.Firewall.{
  refuse, let_pass, act_on, copy_tag, name_firewall, apply_firewall, normalize_firewall,
}
use ot_collector.Normalizers.Plc.{
  PlcMessage, login_attempt, login_success, user_logout, started, stopped, other_message, name_plc,
  classify, tag_user, apply_kind, apply_plc,
}
use ot_collector.Normalizers.Ews.{
  normalize_client, ews_cases, fuxa_gds_cases, apply_ews, apply_fuxa_gds_client,
}
use ot_collector.Normalizers.Opcua.{
  opcua_cases, name_opcua, rewrite_event_type, normalize_opcua, apply_opcua,
}
use ot_collector.Normalizers.Gds.{gds_cases, normalize_gds, apply_gds_agent}
use ot_collector.Normalizers.Apply.Kept.{
  all_full, Kept, Kept-refl, Kept-trans, Kept-if, Kept-name, Kept-address, Kept-category,
  Kept-severity, Kept-set_tag, Kept-rewrite_message, Kept-name_asset, Kept-when_source, Kept-switch,
}

module _ (strip : String → String) where
  Kept-normalize_client :
      (name ip : String) (cases : List Case) (e : Event)
      → all_full cases ≡ true
      → Kept e (normalize_client strip name ip cases e)
  unfolding normalize_client
  Kept-normalize_client name ip cases e h =
      Kept-trans (Kept-name_asset name e)
        (Kept-trans (Kept-address (name_asset name e) _) (Kept-switch cases _ _ h))

  pub Kept-apply_ews : (e : Event) → Kept e (apply_ews strip e)
  unfolding apply_ews
  Kept-apply_ews e =
      Kept-when_source "ews" _ e
        (Kept-normalize_client "Engineering Workstation" "192.168.1.50" ews_cases e refl)

  pub Kept-apply_fuxa_gds_client : (e : Event) → Kept e (apply_fuxa_gds_client strip e)
  unfolding apply_fuxa_gds_client
  Kept-apply_fuxa_gds_client e =
      Kept-when_source "scada_gds_client" _ e
        (Kept-normalize_client "FUXA SCADA GDS Client" "192.168.1.60" fuxa_gds_cases e refl)

  pub Kept-apply_gds_agent : (e : Event) → Kept e (apply_gds_agent strip e)
  unfolding apply_gds_agent normalize_gds
  Kept-apply_gds_agent e =
      Kept-when_source "gds_agent" _ e
        (Kept-trans (Kept-name_asset "OT GDS Agent" e) (Kept-switch gds_cases _ _ refl))

  Kept-rewrite_event_type : (e : Event) → Kept e (rewrite_event_type e)
  unfolding rewrite_event_type
  Kept-rewrite_event_type e = Kept-if _ (Kept-refl e) (Kept-rewrite_message (tag e "event_type") e)

  Kept-name_opcua : (e : Event) → Kept e (name_opcua e)
  unfolding name_opcua
  Kept-name_opcua e = Kept-if _ (Kept-name e "OPC UA Server") (Kept-refl e)

  pub Kept-apply_opcua : (e : Event) → Kept e (apply_opcua strip e)
  unfolding apply_opcua normalize_opcua
  Kept-apply_opcua e = Kept-when_source "opcua" _ e (
      Kept-trans (Kept-name_opcua e)
        (Kept-trans (Kept-rewrite_event_type (name_opcua e)) (Kept-switch opcua_cases _ _ refl)))

  module _ (user_of : String → Option String) where
    Kept-tag_user : (e : Event) → Kept e (tag_user strip user_of e)
    unfolding tag_user
    Kept-tag_user e = elim (Option-cases (user_of (clean_message_prefix strip e.message))) [
      | inl nobody ↦ rw (tag_user, nobody) (Kept-refl e)
      | inr (user, found) ↦ rw (tag_user, found) (Kept-set_tag "plc_user" user e)
    ]

    Kept-classify :
        (message category severity : String) (e : Event)
        → is_odd severity ≡ false
        → Kept e (classify message category severity e)
    Kept-classify message category severity e h =
        Kept-trans (Kept-rewrite_message message e)
          (Kept-trans (Kept-category _ category) (Kept-severity _ severity h))

    Kept-apply_kind : (k : PlcMessage) (e : Event) → Kept e (apply_kind strip user_of k e)
    unfolding apply_kind
    Kept-apply_kind login_attempt e = Kept-classify _ _ "info" e refl
    Kept-apply_kind login_success e = Kept-trans (Kept-classify _ _ "info" e refl) (Kept-tag_user _)
    Kept-apply_kind user_logout e = Kept-classify _ _ "info" e refl
    Kept-apply_kind started e = Kept-classify _ _ "info" e refl
    Kept-apply_kind stopped e = Kept-classify _ _ "warning" e refl
    Kept-apply_kind other_message e = Kept-refl e

    Kept-name_plc : (e : Event) → Kept e (name_plc e)
    unfolding name_plc
    Kept-name_plc e = Kept-if _ (Kept-name e _) (Kept-refl e)

    pub Kept-apply_plc : (e : Event) → Kept e (apply_plc strip user_of e)
    unfolding apply_plc
    Kept-apply_plc e =
        Kept-if _ (Kept-trans (Kept-name_plc e) (Kept-apply_kind _ (name_plc e))) (Kept-refl e)

Kept-refuse : (message : String) (e : Event) → Kept e (refuse message e)
unfolding refuse
Kept-refuse message e = Kept-trans (Kept-rewrite_message message e) (
    Kept-trans (Kept-category _ "security")
      (Kept-if _ (Kept-severity _ "warning" refl) (Kept-refl _)))

Kept-let_pass : (e : Event) → Kept e (let_pass e)
unfolding let_pass
Kept-let_pass e =
    Kept-trans (Kept-rewrite_message "firewall_pass" e)
      (Kept-if _ (Kept-category _ "network_traffic") (Kept-refl _))

Kept-act_on : (action : String) (e : Event) → Kept e (act_on action e)
unfolding act_on
Kept-act_on action e =
    Kept-if _ (Kept-refuse "firewall_block" e)
      (Kept-if _ (Kept-refuse "firewall_reject" e) (Kept-if _ (Kept-let_pass e) (Kept-refl e)))

Kept-copy_tag : (k j : String) (e : Event) → Kept e (copy_tag k j e)
unfolding copy_tag
Kept-copy_tag k j e = Kept-if _ (Kept-refl e) (Kept-set_tag j _ e)

pub Kept-apply_firewall : (e : Event) → Kept e (apply_firewall e)
unfolding apply_firewall normalize_firewall name_firewall
Kept-apply_firewall e = Kept-when_source "firewall" _ e (
    Kept-trans (Kept-if _ (Kept-name e "OPNsense OT Firewall") (Kept-refl e)) (
      Kept-trans (Kept-if _ (Kept-refl _) (Kept-set_tag "action" _ _)) (
        Kept-trans (Kept-act_on _ _) (
          Kept-trans (Kept-copy_tag "src_ip" "source_ip" _)
            (Kept-copy_tag "dst_ip" "destination_ip" _)))))
