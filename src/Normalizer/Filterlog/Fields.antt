-- ===== src/Normalizer/Filterlog/Fields.antt =====
-- Which tag a field of filterlog becomes.
use Prim.Native.String
use mathlib.Core.Path.{subst}
use text.Mathlib.Text.{starts_with}
use text.Mathlib.TextPositions.{starts_with-append}
use ot_collector.GoText.{trim_space, join}
use ot_collector.Prelude.{
  refuted, both_true, ◌≡◌, refl, ◌∙◌, ◌+◌, ℕ, String, Bool, true, false, ◌&&◌, not, some, List, [],
  ◌∷◌, Dict, lookup, insert, lookup-insert, lookup-insert_self, str_eq, eq_iff, ltb, length, drop,
  if◌then◌else◌, Bool-cases, Option-cases, inl, inr,
}
use ot_collector.Normalizer.Filterlog.{
  get_elem?, put, put_all, ipv4_fields, tcp_fields, tcp_options, icmp_details,
}

put-other :
    (fields : List String) (i : ℕ) (key name : String) (tags : Dict String)
    → str_eq key name ≡ false
    → lookup name (put fields i key tags) ≡ lookup name tags
unfolding put
put-other fields i key name tags other = elim (Option-cases (get_elem? fields i)) [
  | inl missing ↦ rw (put, missing) refl
  | inr (f, at) ↦ elim (Bool-cases (str_eq f "")) [
    | inl empty ↦ rw (put, at, empty) refl
    | inr full ↦ rw (put, at, full, lookup-insert, other) refl
  ]
]

put-field :
    (fields : List String) (i : ℕ) (key f : String) (tags : Dict String)
    → get_elem? fields i ≡ some f
    → str_eq f "" ≡ false
    → lookup key (put fields i key tags) ≡ some f
unfolding put
put-field fields i key f tags at full = rw (put, at, full, lookup-insert_self) refl

-- No field of the list has the name.
abbrev pub is_new : String → List (ℕ × String) → Bool
is_new name [] = true
is_new name ((i, key) ∷ rest) = not (str_eq key name) && is_new name rest

-- No two fields of the list have one name.
abbrev pub distinct : List (ℕ × String) → Bool
distinct [] = true
distinct ((i, key) ∷ rest) = is_new key rest && distinct rest

pub put_all-new :
    (fields : List String) (table : List (ℕ × String)) (name : String) (tags : Dict String)
    → is_new name table ≡ true
    → lookup name (put_all fields table tags) ≡ lookup name tags
unfolding put_all
put_all-new fields [] name tags h = refl
put_all-new fields ((i, key) ∷ rest) name tags h =
    let (first, more) = both_true _ _ h in
    put_all-new fields rest name (put fields i key tags) more
    ∙ put-other fields i key name tags (refuted _ first)

-- The fields of the list that the record has and that are not empty.
pub data IsField (i : ℕ) (key : String) : List (ℕ × String) → Type 0 where
  here : {rest : List (ℕ × String)} → IsField i key ((i, key) ∷ rest)
  there :
      {field : ℕ × String} {rest : List (ℕ × String)}
      → IsField i key rest
      → IsField i key (field ∷ rest)

pub put_all-field :
    (fields : List String) (table : List (ℕ × String)) (i : ℕ) (key f : String) (tags : Dict String)
    → distinct table ≡ true
    → IsField i key table
    → get_elem? fields i ≡ some f
    → str_eq f "" ≡ false
    → lookup key (put_all fields table tags) ≡ some f
unfolding put_all
put_all-field fields [] i key f tags d h at full = elim h [ ]
put_all-field fields ((i, key) ∷ rest) _ _ f tags d here at full =
    put_all-new fields rest key (put fields i key tags) (both_true _ _ d).0
    ∙ put-field fields i key f tags at full
put_all-field fields ((j, other) ∷ rest) i key f tags d (there h) at full =
    put_all-field fields rest i key f (put fields j other tags) (both_true _ _ d).1 h at full

-- No name of the first list is one of the second.
abbrev pub apart : List (ℕ × String) → List (ℕ × String) → Bool
apart [] table = true
apart ((i, key) ∷ rest) table = is_new key table && apart rest table

pub apart-field :
    (fields table : List (ℕ × String)) (i : ℕ) (key : String)
    → apart fields table ≡ true
    → IsField i key fields
    → is_new key table ≡ true
apart-field [] table i key a h = elim h [ ]
apart-field ((i, key) ∷ rest) table _ _ a here = (both_true _ _ a).0
apart-field (field ∷ rest) table i key a (there h) =
    apart-field rest table i key (both_true _ _ a).1 h

module _ (itoa : ℕ → String) (key : String)
    (no_detail : (s : String) → str_eq (String.◌++◌ "icmp_detail_" s) key ≡ false) where
  pub icmp_details-other :
      (fields : List String) (i : ℕ) (tags : Dict String)
      → lookup key (icmp_details itoa fields i tags) ≡ lookup key tags
  unfolding icmp_details
  icmp_details-other [] i tags = refl
  icmp_details-other (f ∷ fields) i tags =
      icmp_details-other fields (i + 1) _ ∙ (elim (Bool-cases (str_eq f "")) [
        | inl empty ↦ rw empty refl
        | inr full ↦ rw (full, lookup-insert, no_detail (itoa i)) refl
      ])

-- The tags that come after those of ipv4_fields, with any position.
abbrev later_fields : List (ℕ × String)
later_fields =
    (0, "tcp_options") ∷ (0, "icmp_type") ∷ (0, "icmp_id") ∷ (0, "icmp_sequence") ∷ tcp_fields 23

no_later : apart ipv4_fields later_fields ≡ true
no_later = refl

-- No name of the list starts so.
abbrev pub none_starts : String → List (ℕ × String) → Bool
none_starts p [] = true
none_starts p ((i, key) ∷ rest) = not (starts_with key p) && none_starts p rest

pub starts-field :
    (fields : List (ℕ × String)) (i : ℕ) (key p : String)
    → none_starts p fields ≡ true
    → IsField i key fields
    → starts_with key p ≡ false
starts-field [] i key p a h = elim h [ ]
starts-field ((i, key) ∷ rest) _ _ p a here = refuted _ (both_true _ _ a).0
starts-field (field ∷ rest) i key p a (there h) = starts-field rest i key p (both_true _ _ a).1 h

pub append-other :
    (p s key : String) → starts_with key p ≡ false → str_eq (String.◌++◌ p s) key ≡ false
append-other p s key h = elim (Bool-cases (str_eq (String.◌++◌ p s) key)) [
  | inr other ↦ other
  | inl same ↦
      let starts : starts_with key p ≡ true =
        subst (λ (x : String). starts_with x p ≡ true) ((eq_iff (String.◌++◌ p s) key).0 same)
          (starts_with-append p s) in
      cc
]

module _ (fields : List String) (key : String) where
  pub tcp-other :
      (b : Bool) (tags : Dict String)
      → is_new key ((0, "tcp_options") ∷ tcp_fields 23) ≡ true
      → lookup key (if b then tcp_options fields 28 (put_all fields (tcp_fields 23) tags) else tags)
        ≡ lookup key tags
  unfolding tcp_options
  tcp-other false tags new = refl
  tcp-other true tags new =
      let (first, more) = both_true _ _ new in
      unless_set (ltb 28 (length fields)) (str_eq (trim_space (join (drop 28 fields) ",")) "") _ _
        (refuted _ first)
      ∙ put_all-new fields (tcp_fields 23) key tags more
    where
      unless_set :
          (b c : Bool) (v : String) (t : Dict String)
          → str_eq "tcp_options" key ≡ false
          → lookup key (if b then if c then t else insert "tcp_options" v t else t) ≡ lookup key t
      unless_set false c v t other = refl
      unless_set true true v t other = refl
      unless_set true false v t other = rw (lookup-insert, other) refl
