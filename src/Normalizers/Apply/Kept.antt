-- ===== src/Normalizers/Apply/Kept.antt =====
-- What no normalizer of a source changes: where an event comes from, and that its severity is
-- written out in full.
use ot_collector.Prelude.{
  refuted, both_true, ◌≡◌, refl, ◌∙◌, String, Bool, true, false, ◌||◌, not, ◌&&◌, Option, none,
  some, List, [], ◌∷◌, Dict, if◌then◌else◌, Bool-cases, Option-cases, inl, inr, str_eq,
}
use mathlib.Core.Path.{subst}
use ot_collector.GoText.{trim_space, contains_any}
use ot_collector.Event.{Event, set_tag}
use ot_collector.Normalizers.{rewrite_message}
use ot_collector.Normalizers.Completeness.{is_odd}
use ot_collector.Normalizers.Cases.{
  Case, set_tags, set_severity, take_case, find_case, switch, name_asset, when_source,
}

pub record Origin : Type 0 where
  pub id : String
  pub timestamp : String
  pub received_at : String
  pub zone : String
  pub protocol : String
  pub raw : String
  pub source_type : String

abbrev pub origin : Event → Origin
origin e = record {
  id = e.id;
  timestamp = e.timestamp;
  received_at = e.received_at;
  zone = e.zone;
  protocol = e.protocol;
  raw = e.raw;
  source_type = e.source_type;
}

-- From `e` to `f` the origin is the same, and a severity written out in full stays one.
pub record Kept (e f : Event) : Type 0 where
  pub same : origin f ≡ origin e
  pub full : is_odd e.severity ≡ false → is_odd f.severity ≡ false

pub Kept-refl : (e : Event) → Kept e e
Kept-refl e = record { same = refl; full = λ h. h }

pub Kept-trans : {e f g : Event} → Kept e f → Kept f g → Kept e g
Kept-trans a b = record { same = b.same ∙ a.same; full = λ h. b.full (a.full h) }

pub Kept-if : {e f g : Event} (b : Bool) → Kept e f → Kept e g → Kept e (if b then f else g)
Kept-if true x y = x
Kept-if false x y = y

pub Kept-name : (e : Event) (name : String) → Kept e (record e { asset_name = name })
Kept-name e name = record { same = refl; full = λ h. h }

pub Kept-address : (e : Event) (ip : String) → Kept e (record e { asset_ip = ip })
Kept-address e ip = record { same = refl; full = λ h. h }

pub Kept-category :
    (e : Event) (category : String) → Kept e (record e { event_category = category })
Kept-category e category = record { same = refl; full = λ h. h }

pub Kept-message : (e : Event) (message : String) → Kept e (record e { message = message })
Kept-message e message = record { same = refl; full = λ h. h }

pub Kept-severity : (e : Event) (s : String) → is_odd s ≡ false → Kept e (record e { severity = s })
Kept-severity e s h = record { same = refl; full = λ _. h }

pub Kept-set_tag : (k v : String) (e : Event) → Kept e (set_tag k v e)
unfolding set_tag
Kept-set_tag k v e = elim (Option-cases e.tags) [
  | inl none_made ↦ rw none_made (Kept-refl _)
  | inr (m, made) ↦ rw made (record { same = refl; full = λ h. h })
]

pub Kept-set_tags : (ts : Dict String) (e : Event) → Kept e (set_tags ts e)
unfolding set_tags
Kept-set_tags [] e = Kept-refl e
Kept-set_tags ((k, v) ∷ ts) e = Kept-trans (Kept-set_tag k v e) (Kept-set_tags ts (set_tag k v e))

pub Kept-rewrite_message : (text : String) (e : Event) → Kept e (rewrite_message text e)
unfolding rewrite_message
Kept-rewrite_message text e =
    Kept-if (str_eq (trim_space text) "" || str_eq e.message (trim_space text)) (Kept-refl e)
      (Kept-trans (Kept-set_tag _ _ e) (Kept-message _ _))

pub Kept-name_asset : (name : String) (e : Event) → Kept e (name_asset name e)
unfolding name_asset
Kept-name_asset name e = Kept-if _ (Kept-name e name) (Kept-refl e)

pub Kept-when_source :
    (t : String) (body : Event → Event) (e : Event)
    → Kept e (body e)
    → Kept e (when_source t body e)
unfolding when_source
Kept-when_source t body e h = Kept-if _ h (Kept-refl e)

-- A case sets no severity but one that is written out in full.
abbrev pub is_full : Option String → Bool
is_full none = true
is_full (some s) = not (is_odd s)

abbrev pub all_full : List Case → Bool
all_full [] = true
all_full (c ∷ cs) = is_full c.severity && all_full cs

Kept-set_severity : (o : Option String) (e : Event) → is_full o ≡ true → Kept e (set_severity o e)
Kept-set_severity none e h = Kept-refl e
Kept-set_severity (some s) e h = Kept-severity e s (refuted (is_odd s) h)

pub Kept-take_case : (c : Case) (e : Event) → is_full c.severity ≡ true → Kept e (take_case c e)
unfolding take_case
Kept-take_case c e h = Kept-trans (Kept-rewrite_message c.text e) (
    Kept-trans (Kept-category _ c.category)
      (Kept-trans (Kept-set_severity c.severity _ h) (Kept-set_tags c.marks _)))

chosen :
    (b : Bool) (d c : Case) (rest : Option Case)
    → b ≡ true
    → (if b then some d else rest) ≡ some c
    → d ≡ c
chosen true d c rest h e = cc
chosen false d c rest h e = cc

skipped :
    (b : Bool) (x rest : Option Case) {o : Option Case}
    → b ≡ false
    → (if b then x else rest) ≡ o
    → rest ≡ o
skipped true x rest h e = cc
skipped false x rest h e = e

-- What find_case finds is one of the cases.
pub find_case-full :
    (cases : List Case) (l : String)
    → all_full cases ≡ true
    → (c : Case) → find_case cases l ≡ some c
    → is_full c.severity ≡ true
unfolding find_case
find_case-full [] l h c e = cc
find_case-full (d ∷ cs) l h c e = elim (Bool-cases (contains_any l d.needles)) [
  | inl first ↦
      let same : d ≡ c = chosen _ d c _ first e in
      subst (λ (x : Case). is_full x.severity ≡ true) same (both_true _ _ h).0
  | inr later ↦ find_case-full cs l (both_true _ _ h).1 c (skipped _ _ _ later e)
]

pub Kept-switch :
    (cases : List Case) (l : String) (e : Event) → all_full cases ≡ true → Kept e (switch cases l e)
unfolding switch
Kept-switch cases l e h = elim (Option-cases (find_case cases l)) [
  | inl nothing ↦ rw (switch, nothing) (Kept-refl e)
  | inr (c, at) ↦ rw (switch, at) (Kept-take_case c e (find_case-full cases l h c at))
]
