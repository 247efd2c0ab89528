-- ===== src/Normalizers/Plc/Users.antt =====
-- The users that log in to a PLC.
use ot_collector.Prelude.{
  ◌≡◌, refl, ◌∙◌, String, false, Option, none, Bool-cases, Option-cases, inl, inr, str_eq, ◌||◌,
  eq_iff, lookup-insert,
}
use ot_collector.GoText.{trim_space, to_lower, has_prefix, equal_fold}
use ot_collector.Event.{Event, tag?, set_tag}
use ot_collector.Normalizers.{rewrite_message}
use ot_collector.Normalizers.Cases.{clean_message_prefix}
use ot_collector.Normalizers.Plc.{
  PlcMessage, login_attempt, login_success, user_logout, started, stopped, other_message, name_plc,
  tag_user, apply_kind, apply_plc,
}

set_tag-other :
    (k j v : String) (e : Event) → str_eq k j ≡ false → tag? (set_tag k v e) j ≡ tag? e j
unfolding tag? set_tag
set_tag-other k j v e other = elim (Option-cases e.tags) [
  | inl none_made ↦ rw none_made
  | inr (m, made) ↦ rw made (rw (lookup-insert, other))
]

rewrite_message-user :
    (text : String) (e : Event) → tag? (rewrite_message text e) "plc_user" ≡ tag? e "plc_user"
unfolding rewrite_message tag?
rewrite_message-user text e =
    elim (Bool-cases (str_eq (trim_space text) "" || str_eq e.message (trim_space text))) [
      | inl same ↦ rw same
      | inr new ↦ rw new (set_tag-other "original_message" "plc_user" e.message e refl)
    ]

rewrite_message-success :
    (e : Event) → (rewrite_message "plc_login_success" e).message ≡ "plc_login_success"
unfolding rewrite_message trim_space
rewrite_message-success e = elim (Bool-cases (str_eq e.message "plc_login_success")) [
  | inl same ↦ rw (rewrite_message, same) ((eq_iff e.message "plc_login_success").0 same)
  | inr new ↦ rw (rewrite_message, new)
]

name_plc-user : (e : Event) → tag? (name_plc e) "plc_user" ≡ tag? e "plc_user"
unfolding name_plc tag?
name_plc-user e =
    elim (Bool-cases (
      str_eq e.asset_name ""
      || (equal_fold e.asset_name "unknown"
          || has_prefix (to_lower e.asset_name) "labshock-plc"))) [
            | inl named ↦ rw named
            | inr given ↦ rw given
          ]

module _ (strip : String → String) (user_of : String → Option String)
    (no_prefix : strip "plc_login_success" ≡ "plc_login_success")
    (no_user : user_of "plc_login_success" ≡ none) where
  tag_user-user :
      (e : Event)
      → e.message ≡ "plc_login_success"
      → tag? (tag_user strip user_of e) "plc_user" ≡ tag? e "plc_user"
  unfolding tag_user clean_message_prefix trim_space tag?
  tag_user-user e rewritten = rw (tag_user, clean_message_prefix, rewritten, no_prefix, no_user)

  apply_kind-user :
      (k : PlcMessage) (e : Event)
      → tag? (apply_kind strip user_of k e) "plc_user" ≡ tag? e "plc_user"
  unfolding apply_kind tag?
  apply_kind-user login_attempt e = rewrite_message-user _ e
  apply_kind-user login_success e =
      tag_user-user _ (rewrite_message-success e) ∙ rewrite_message-user _ e
  apply_kind-user user_logout e = rewrite_message-user _ e
  apply_kind-user started e = rewrite_message-user _ e
  apply_kind-user stopped e = rewrite_message-user _ e
  apply_kind-user other_message e = refl

  -- applyPLC never finds the user of a login: whatever the event, its tag plc_user is afterwards
  -- what it was before, if the two expressions find neither a prefix nor a user in
  -- "plc_login_success", the text that has replaced the message before it is searched.
  pub apply_plc-user : (e : Event) → tag? (apply_plc strip user_of e) "plc_user" ≡ tag? e "plc_user"
  unfolding apply_plc
  apply_plc-user e = elim (Bool-cases (str_eq e.source_type "plc")) [
    | inl plc ↦ rw plc (apply_kind-user _ (name_plc e) ∙ name_plc-user e)
    | inr other ↦ rw other
  ]
