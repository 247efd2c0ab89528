-- ===== src/Normalizers/Firewall/Alerts.antt =====
-- What becomes of a packet that the firewall blocks.
use ot_collector.Prelude.{
  ◌≡◌, refl, ap, ◌∙◌, String, Bool, true, false, some, str_eq, eq_iff, if◌then◌else◌, Bool-cases,
  inl, inr,
}
use ot_collector.GoText.{to_lower, trim_space}
use ot_collector.Event.{Event, tag, tag?, set_tag, or_default}
use ot_collector.Event.Tags.{HasTags, has_tags, HasTags-set_tag, tag?-set_tag}
use ot_collector.Normalizers.Apply.Ready.{IsReady, retagged, prepare-IsReady}
use ot_collector.Normalizers.{
  Context, spell_source_type, set_sourcetype, mark_alert_candidate, set_decision_hint,
  rewrite_message, is_one_of, alerts, finish,
}
use ot_collector.Normalizers.Apply.{Regexps, prepare, apply_sources, apply}
use ot_collector.Normalizers.Apply.Dispatch.{normalizer_of, apply_sources-normalizer_of}
use ot_collector.Normalizers.Cases.{when_source}
use ot_collector.Normalizers.Firewall.{
  name_firewall, firewall_action, refuse, act_on, copy_tag, normalize_firewall, apply_firewall,
}

-- The event of a packet that is blocked.
record IsBlocked (e : Event) : Type 0 where
  tagged : HasTags e
  blocked : e.message ≡ "firewall_block"
  secured : e.event_category ≡ "security"

IsBlocked-if : {x y : Event} (b : Bool) → IsBlocked x → IsBlocked y → IsBlocked (if b then x else y)
IsBlocked-if true x y = x
IsBlocked-if false x y = y

set_tag-message : (k v : String) (e : Event) → HasTags e → (set_tag k v e).message ≡ e.message
unfolding set_tag
set_tag-message k v e (has_tags m made) = rw made refl

set_tag-category :
    (k v : String) (e : Event) → HasTags e → (set_tag k v e).event_category ≡ e.event_category
unfolding set_tag
set_tag-category k v e (has_tags m made) = rw made refl

set_tag-IsBlocked : (k v : String) (e : Event) → IsBlocked e → IsBlocked (set_tag k v e)
set_tag-IsBlocked k v e b = record {
  tagged = HasTags-set_tag k v e b.tagged;
  blocked = set_tag-message k v e b.tagged ∙ b.blocked;
  secured = set_tag-category k v e b.tagged ∙ b.secured;
}

record IsRewritten (e : Event) : Type 0 where
  tagged : HasTags e
  blocked : e.message ≡ "firewall_block"

rewrite_message-IsRewritten :
    (e : Event) → HasTags e → IsRewritten (rewrite_message "firewall_block" e)
unfolding rewrite_message trim_space
rewrite_message-IsRewritten e h = elim (Bool-cases (str_eq e.message "firewall_block")) [
  | inl same ↦ rw same (record { tagged = h; blocked = (eq_iff e.message "firewall_block").0 same })
  | inr new ↦ rw new (retold (HasTags-set_tag "original_message" e.message e h))
]
  where
    retold : {x : Event} → HasTags x → IsRewritten (record x { message = "firewall_block" })
    retold (has_tags m made) = record { tagged = has_tags m made; blocked = refl }

refuse-IsBlocked : (e : Event) → HasTags e → IsBlocked (refuse "firewall_block" e)
unfolding refuse
refuse-IsBlocked e h =
    let w = rewrite_message-IsRewritten e h in let b = secure w in IsBlocked-if _ (raise b) b
  where
    moved : {x : Event} → HasTags x → HasTags (record x { event_category = "security" })
    moved (has_tags m made) = has_tags m made

    secure : {x : Event} → IsRewritten x → IsBlocked (record x { event_category = "security" })
    secure w = record { tagged = moved w.tagged; blocked = w.blocked; secured = refl }

    raise : {x : Event} → IsBlocked x → IsBlocked (record x { severity = "warning" })
    raise b = record { tagged = retagged b.tagged; blocked = b.blocked; secured = b.secured }

name_firewall-IsReady :
    (type action : String) (e : Event)
    → IsReady type action e
    → IsReady type action (name_firewall e)
unfolding name_firewall tag tag?
name_firewall-IsReady type action e r = either _ (renamed r) r
  where
    kept : {x : Event} {name : String} → HasTags x → HasTags (record x { asset_name = name })
    kept (has_tags m made) = has_tags m made

    renamed :
        {x : Event} {name : String}
        → IsReady type action x
        → IsReady type action (record x { asset_name = name })
    renamed q = record { tagged = kept q.tagged; typed = q.typed; acting = q.acting }

    either :
        {x y : Event} (b : Bool)
        → IsReady type action x
        → IsReady type action y
        → IsReady type action (if b then x else y)
    either true x y = x
    either false x y = y

copy_tag-IsBlocked : (k j : String) (e : Event) → IsBlocked e → IsBlocked (copy_tag k j e)
unfolding copy_tag
copy_tag-IsBlocked k j e b = IsBlocked-if _ b (set_tag-IsBlocked j (tag e k) e b)

firewall_action-tag :
    (action : String) (e : Event)
    → tag e "action" ≡ action
    → to_lower (trim_space action) ≡ "block"
    → firewall_action e ≡ "block"
unfolding firewall_action
firewall_action-tag action e h lower = rw (h, lower) refl

normalize_firewall-IsBlocked :
    (action : String) (e : Event)
    → IsReady "firewall" action e
    → to_lower (trim_space action) ≡ "block"
    → IsBlocked (normalize_firewall e)
unfolding normalize_firewall act_on
normalize_firewall-IsBlocked action e r lower =
    let n = name_firewall-IsReady "firewall" action e r in
    rw (firewall_action-tag action _ n.acting lower) (
      copy_tag-IsBlocked _ _ _ (
        copy_tag-IsBlocked _ _ _
          (refuse-IsBlocked _ (HasTags-set_tag "action" "block" _ n.tagged))))

apply_firewall-IsBlocked :
    (action : String) (e : Event)
    → IsReady "firewall" action e
    → to_lower (trim_space action) ≡ "block"
    → IsBlocked (apply_firewall e)
unfolding apply_firewall when_source
apply_firewall-IsBlocked action e r lower =
    let of_firewall : str_eq e.source_type "firewall" ≡ true =
      (eq_iff e.source_type "firewall").1 r.typed in
    rw of_firewall (normalize_firewall-IsBlocked action e r lower)

record IsAlert (e : Event) : Type 0 where
  marked : IsBlocked e
  alert : tag? e "alert_candidate" ≡ some "true"

IsAlert-if : {x y : Event} (b : Bool) → IsAlert x → IsAlert y → IsAlert (if b then x else y)
IsAlert-if true x y = x
IsAlert-if false x y = y

hinted-IsAlert :
    (v : String) (e : Event) → IsAlert e → IsAlert (set_tag "collector_decision_hint" v e)
hinted-IsAlert v e a = record {
  marked = set_tag-IsBlocked "collector_decision_hint" v e a.marked;
  alert = tag?-set_tag "collector_decision_hint" v "alert_candidate" e a.marked.tagged ∙ a.alert;
}

set_decision_hint-IsAlert : (e : Event) → IsAlert e → IsAlert (set_decision_hint e)
unfolding set_decision_hint
set_decision_hint-IsAlert e a =
    IsAlert-if _ a
      (IsAlert-if _ (hinted-IsAlert "store_forward" e a) (hinted-IsAlert "sample_or_drop" e a))

block_is_alert : is_one_of "firewall_block" alerts ≡ true
unfolding is_one_of
block_is_alert = refl

mark_alert_candidate-IsAlert : (e : Event) → IsBlocked e → IsAlert (mark_alert_candidate e)
unfolding mark_alert_candidate
mark_alert_candidate-IsAlert e b =
    rw (ap (λ (s : String). is_one_of s alerts) b.blocked ∙ block_is_alert) (record {
      marked = set_tag-IsBlocked "alert_candidate" "true" e b;
      alert = tag?-set_tag "alert_candidate" "true" "alert_candidate" e b.tagged;
    })

set_sourcetype-IsBlocked : (e : Event) → IsBlocked e → IsBlocked (set_sourcetype e)
unfolding set_sourcetype
set_sourcetype-IsBlocked e b = IsBlocked-if _ b (set_tag-IsBlocked "splunk_sourcetype" _ e b)

module _ (re : Regexps) (ctx : Context) (e : Event)
    (of_firewall : spell_source_type e.source_type ≡ "firewall")
    (blocks : to_lower (trim_space (tag e "action")) ≡ "block") where
  apply_sources-IsBlocked : IsBlocked (apply_sources re (prepare ctx e))
  apply_sources-IsBlocked =
      let r = prepare-IsReady ctx "firewall" e of_firewall refl in
      let p = prepare ctx e in
      let same : apply_sources re p ≡ apply_firewall p =
        apply_sources-normalizer_of re p ∙ ap (λ (t : String). normalizer_of re t p) r.typed in
      rw same (apply_firewall-IsBlocked _ p r blocks)

  -- A packet that the firewall blocks is an alert: if the source type of an event is spelled
  -- "firewall" and its tag action, in lower case and trimmed, is "block", then Apply gives it the
  -- message "firewall_block" and the category "security" and tags it as an alert candidate, whatever
  -- else the event says.
  pub blocked_is_alert :
      ((apply re ctx e).message ≡ "firewall_block")
      × ((apply re ctx e).event_category ≡ "security")
      × (tag? (apply re ctx e) "alert_candidate" ≡ some "true")
  unfolding apply finish tag? or_default
  blocked_is_alert =
      let a =
        set_decision_hint-IsAlert _
          (mark_alert_candidate-IsAlert _ (set_sourcetype-IsBlocked _ apply_sources-IsBlocked)) in
      (
        ap (λ (s : String). or_default s "unknown_event") a.marked.blocked,
        ap (λ (s : String). or_default s "system") a.marked.secured,
        a.alert,
      )
