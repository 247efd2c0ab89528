-- ===== src/Prelude/Maps.antt =====
-- Go maps with string keys, as association lists that hold a key once.
use Prim.Native.Nat.{ℕ, ◌+◌}
use Prim.Native.String.{String}
use mathlib.Core.Path.{◌≡◌, refl}
use mathlib.Core.Option.{Option, none, some}
use mathlib.Core.List.{List, [], ◌∷◌}
use native.Mathlib.Omega.{arith}
use text.Mathlib.Text.{◌==◌}
use text.Mathlib.TextEquality.{eq_iff}
use text.Mathlib.TextPositions.{eq_refl}
use ot_collector.Prelude.Tests.{if◌then◌else◌}

abbrev pub Dict {ℓ} : Type ℓ → Type ℓ
Dict V = List (String × V)

module _ {ℓ} {V : Type ℓ} where
  unfoldable pub lookup : String → Dict V → Option V
  lookup key [] = none
  lookup key ((found, value) ∷ rest) = if found == key then some value else lookup key rest

  -- m[key] = value
  unfoldable pub insert : String → V → Dict V → Dict V
  insert key value [] = (key, value) ∷ []
  insert key value ((found, old) ∷ rest) =
      if found == key then (found, value) ∷ rest else (found, old) ∷ insert key value rest

  -- delete(m, k)
  unfoldable pub remove : String → Dict V → Dict V
  remove k [] = []
  remove k ((j, w) ∷ m) = if j == k then remove k m else (j, w) ∷ remove k m

  pub lookup-insert :
      (set asked : String) (value : V) (dict : Dict V)
      → lookup asked (insert set value dict)
        ≡ (if set == asked then some value else lookup asked dict)
  unfolding lookup insert
  lookup-insert set asked value [] = refl
  lookup-insert set asked value ((found, old) ∷ rest) =
      let later = lookup-insert set asked value rest in
      ground (arith, eq_iff set asked, eq_iff found set, eq_iff found asked, later)

  pub lookup-insert_self : (k : String) (v : V) (m : Dict V) → lookup k (insert k v m) ≡ some v
  lookup-insert_self k v m = simp (lookup-insert, eq_refl)

-- m[k] of a map of strings: the empty string for a key that is absent.
unfoldable pub get_or_empty : String → Dict String → String
get_or_empty k m = elim (lookup k m) [ none ↦ "" | some v ↦ v ]

-- m[k] of a map of counters.
unfoldable pub count_of : String → Dict ℕ → ℕ
count_of k m = elim (lookup k m) [ none ↦ 0 | some n ↦ n ]

-- m[k]++
unfoldable pub bump : String → Dict ℕ → Dict ℕ
unfolding count_of
bump k m = insert k (count_of k m + 1) m

pub get_or_empty-insert :
    (k j v : String) (m : Dict String)
    → get_or_empty j (insert k v m) ≡ (if k == j then v else get_or_empty j m)
unfolding get_or_empty
get_or_empty-insert k j v m = ground (arith, lookup-insert k j v m)

pub count_of-bump :
    (k j : String) (m : Dict ℕ)
    → count_of j (bump k m) ≡ (if k == j then count_of k m + 1 else count_of j m)
unfolding bump
count_of-bump k j m = ground (arith, lookup-insert k j (count_of k m + 1) m)
