-- ===== src/Event.antt =====
-- internal/event/model.go: the event that every part of the collector hands on, and its tags.
pub mod Tags
use ot_collector.Prelude.{
  String, Option, none, some, ◌≡◌, arith, str_eq, if◌then◌else◌, Dict, lookup, insert, [], false,
  Bool-cases, inl, inr,
}

-- `Tags` is a Go map, which may be nil.
pub record Event : Type 0 where
  pub id : String
  pub timestamp : String
  pub received_at : String
  pub zone : String
  pub source_type : String
  pub asset_name : String
  pub asset_ip : String
  pub severity : String
  pub protocol : String
  pub event_category : String
  pub message : String
  pub raw : String
  pub tags : Option (Dict String)

-- Reading a nil map finds nothing.
unfoldable pub tag? : Event → String → Option String
tag? e k = elim e.tags [ none ↦ none | some m ↦ lookup k m ]

-- e.Tags[k]
unfoldable pub tag : Event → String → String
tag e k = elim (tag? e k) [ none ↦ "" | some v ↦ v ]

-- e.Tags[k] = v, of a map that is not nil
unfoldable pub set_tag : String → String → Event → Event
set_tag k v e = elim e.tags [ none ↦ e | some m ↦ record e { tags = some (insert k v m) } ]

-- if e.Tags == nil { e.Tags = map[string]string{} }
unfoldable pub make_tags : Event → Event
make_tags e = elim e.tags [ none ↦ record e { tags = some [] } | some m ↦ e ]

-- if s == "" { s = d }
unfoldable pub or_default : String → String → String
or_default s d = if str_eq s "" then d else s

-- A default that is not empty is set once.
pub or_default_idem :
    (s d : String) → str_eq d "" ≡ false → or_default (or_default s d) d ≡ or_default s d
unfolding or_default
or_default_idem s d h = elim (Bool-cases (str_eq s "")) [ inl e ↦ rw (e, h) | inr e ↦ rw (e, e) ]

pub tag-make_tags : (e : Event) (k : String) → tag (make_tags e) k ≡ tag e k
unfolding tag tag? make_tags lookup
tag-make_tags e k = ground arith

-- A default that is not empty leaves no empty text.
pub or_default-ne : (s d : String) → str_eq d "" ≡ false → str_eq (or_default s d) "" ≡ false
unfolding or_default
or_default-ne s d h = elim (Bool-cases (str_eq s "")) [ inl e ↦ rw (e, h) | inr e ↦ rw (e, e) ]
