-- ===== src/Config/Store/Items.antt =====
-- What Upsert and Delete do to the items, seen as a map from ids.
use ot_collector.Prelude.{
  String, not, Option, none, some, List, [], ◌∷◌, ◌≡◌, refl, str_eq, eq_iff, arith, if◌then◌else◌,
  keep,
}
use ot_collector.Config.Store.{Codec, Kind, put_item}

-- The first item with an id.
unfoldable pub item_of : {A : Type 0} → Kind A → String → List A → Option A
item_of kind id [] = none
item_of kind id (x ∷ xs) = if str_eq (kind.id x) id then some x else item_of kind id xs

module _ {A : Type 0} (codec : Codec A) (kind : Kind A) where
  -- After Upsert's loop the item stands under its id, and the others stand as before.
  pub item_of-put_item :
      (one : A) (id : String) (xs : List A)
      → item_of kind id (put_item codec kind one xs)
        ≡ (if str_eq (kind.id one) id then some one else item_of kind id xs)
  unfolding item_of put_item
  item_of-put_item one id [] = refl
  item_of-put_item one id (x ∷ xs) = ground (
    arith,
    eq_iff (kind.id one) id,
    eq_iff (kind.id x) id,
    eq_iff (kind.id x) (kind.id one),
    item_of-put_item one id xs,
  )

  -- After Delete's loop nothing stands under the id, and the others stand as before.
  pub item_of-keep :
      (gone id : String) (xs : List A)
      → item_of kind id (keep (λ x. not (str_eq (kind.id x) gone)) xs)
        ≡ (if str_eq gone id then none else item_of kind id xs)
  unfolding item_of
  item_of-keep gone id [] = ground arith
  item_of-keep gone id (x ∷ xs) = ground (
    arith,
    eq_iff gone id,
    eq_iff (kind.id x) id,
    eq_iff (kind.id x) gone,
    item_of-keep gone id xs,
  )
