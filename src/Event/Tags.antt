-- ===== src/Event/Tags.antt =====
-- The tags of an event whose map of tags is there.
use ot_collector.Prelude.{
  ◌≡◌, refl, ap, ◌∙◌, String, Bool, true, false, Option, none, some, [], Dict, insert,
  lookup-insert, str_eq, if◌then◌else◌, Option-cases, inl, inr,
}
use ot_collector.Event.{Event, tag, tag?, set_tag, make_tags}

-- The map of tags is there.
pub data HasTags : Event → Type 0 where
  has_tags : {e : Event} (m : Dict String) → e.tags ≡ some m → HasTags e

pub HasTags-if : {x y : Event} (b : Bool) → HasTags x → HasTags y → HasTags (if b then x else y)
HasTags-if true x y = x
HasTags-if false x y = y

pub HasTags-set_tag : (k v : String) (e : Event) → HasTags e → HasTags (set_tag k v e)
unfolding set_tag
HasTags-set_tag k v e (has_tags m made) = rw made (has_tags (insert k v m) refl)

pub tag?-set_tag :
    (k v j : String) (e : Event)
    → HasTags e
    → tag? (set_tag k v e) j ≡ (if str_eq k j then some v else tag? e j)
unfolding tag? set_tag
tag?-set_tag k v j e (has_tags m made) = rw made (lookup-insert k j v m)

-- A tag that is not `j` does not change it.
pub tag-other :
    (k v j : String) (e : Event) → HasTags e → str_eq k j ≡ false → tag (set_tag k v e) j ≡ tag e j
unfolding tag
tag-other k v j e h other =
    ap (λ (o : Option String). elim o as (λ _. String) [ none ↦ "" | some s ↦ s ])
      (tag?-set_tag k v j e h ∙ ap (λ (b : Bool). if b then some v else tag? e j) other)

pub HasTags-make_tags : (e : Event) → HasTags (make_tags e)
unfolding make_tags
HasTags-make_tags e = elim (Option-cases e.tags) [
  | inl none_made ↦ rw none_made (has_tags [] refl)
  | inr (m, made) ↦ rw made (has_tags m refl)
]
