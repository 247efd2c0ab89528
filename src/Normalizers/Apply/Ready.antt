-- ===== src/Normalizers/Apply/Ready.antt =====
-- An event whose source type is known, before the normalizers of the sources.
use ot_collector.Prelude.{
  ◌≡◌, refl, ap, ◌∙◌, String, Bool, true, false, ◌||◌, str_eq, if◌then◌else◌,
}
use ot_collector.Event.{Event, tag, tag?, set_tag, tag-make_tags}
use ot_collector.Event.Tags.{HasTags, has_tags, HasTags-set_tag, HasTags-make_tags, tag-other}
use ot_collector.Normalizers.{
  Context, ensure_base_tags, spell_source_type, canonicalize_source_identity, normalize_severity,
}
use ot_collector.Normalizers.Apply.{prepare}
use ot_collector.Normalizers.Apply.Kept.{Origin, Kept-set_tag}
use ot_collector.Normalizers.Apply.Whole.{Kept-ensure_base_tags}

pub HasTags-ensure_base_tags : (e : Event) → HasTags (ensure_base_tags e)
unfolding ensure_base_tags
HasTags-ensure_base_tags e =
    HasTags-set_tag _ _ _
      (HasTags-set_tag _ _ _ (HasTags-set_tag _ _ _ (HasTags-set_tag _ _ _ (HasTags-make_tags e))))

pub action-ensure_base_tags : (e : Event) → tag (ensure_base_tags e) "action" ≡ tag e "action"
unfolding ensure_base_tags
action-ensure_base_tags e =
    let h0 = HasTags-make_tags e in
    let h1 = HasTags-set_tag "parser_version" "v2.logs_by_sources_md" _ h0 in
    let h2 = HasTags-set_tag "normalized" "true" _ h1 in
    let h3 = HasTags-set_tag "normalization_source" "logs_by_sources_md" _ h2 in
    tag-other "siem_index_hint" _ "action" _ h3 refl
    ∙ tag-other "normalization_source" _ "action" _ h2 refl
    ∙ tag-other "normalized" _ "action" _ h1 refl
    ∙ tag-other "parser_version" _ "action" _ h0 refl
    ∙ tag-make_tags e "action"

-- An event with tags, a source type and an action.
pub record IsReady (type action : String) (e : Event) : Type 0 where
  pub tagged : HasTags e
  pub typed : e.source_type ≡ type
  pub acting : tag e "action" ≡ action

pub canonical-IsReady :
    (ctx : Context) (type action : String) (e : Event)
    → HasTags e
    → tag e "action" ≡ action
    → spell_source_type e.source_type ≡ type
    → str_eq type "unknown" || str_eq type "" ≡ false
    → IsReady type action (canonicalize_source_identity ctx e)
unfolding canonicalize_source_identity tag tag?
canonical-IsReady ctx type action e (has_tags m made) a t known = record {
  tagged = has_tags m made;
  typed = rw (t, known) refl;
  acting = a;
}

pub tagged-IsReady :
    {type action : String} {e : Event} (b : Bool) (v : String)
    → IsReady type action e
    → IsReady type action (if b then set_tag "original_severity" v e else e)
tagged-IsReady false v r = r
tagged-IsReady true v r = record {
  tagged = HasTags-set_tag "original_severity" v _ r.tagged;
  typed = ap (λ (o : Origin). o.source_type) (Kept-set_tag "original_severity" v _).same ∙ r.typed;
  acting = tag-other "original_severity" v "action" _ r.tagged refl ∙ r.acting;
}

pub retagged : {e : Event} {s : String} → HasTags e → HasTags (record e { severity = s })
retagged (has_tags m made) = has_tags m made

pub severe-IsReady :
    {type action : String} {e : Event} (s : String)
    → IsReady type action e
    → IsReady type action (record e { severity = s })
unfolding tag tag?
severe-IsReady s r = record { tagged = retagged r.tagged; typed = r.typed; acting = r.acting }

pub normalize_severity-IsReady :
    (type action : String) (e : Event)
    → IsReady type action e
    → IsReady type action (normalize_severity e)
unfolding normalize_severity
normalize_severity-IsReady type action e r = tagged-IsReady _ _ (severe-IsReady _ r)

pub prepare-IsReady :
    (ctx : Context) (type : String) (e : Event)
    → spell_source_type e.source_type ≡ type
    → str_eq type "unknown" || str_eq type "" ≡ false
    → IsReady type (tag e "action") (prepare ctx e)
unfolding prepare
prepare-IsReady ctx type e t known = normalize_severity-IsReady type _ _ (
    canonical-IsReady ctx type _ (ensure_base_tags e) (HasTags-ensure_base_tags e)
      (action-ensure_base_tags e)
      (ap (λ (o : Origin). spell_source_type o.source_type) (Kept-ensure_base_tags e).same ∙ t)
      known)
