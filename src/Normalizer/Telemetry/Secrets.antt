-- ===== src/Normalizer/Telemetry/Secrets.antt =====
-- What of a payload reaches the tags.
use Prim.Native.String
use mathlib.Core.Path.{subst}
use ot_collector.Prelude.{
  ◌≡◌, refl, sym, ap, ◌∙◌, String, Bool, true, false, ◌⊎◌, inl, inr, Option, none, some, [], ◌∷◌,
  Dict, lookup, insert, lookup-insert, str_eq, eq_iff, is_some, if◌then◌else◌, Bool-cases,
  Option-cases, ℕ,
}
use ot_collector.Normalizer.Telemetry.{
  Json, is_sensitive_key, target_key, scalar_to_string, copy_field, copy_safe_json_fields_to_tags,
}

-- The names under which a key may be copied.
pub data IsNamed (key : String) : String → Type 0 where
  plain : IsNamed key key
  prefixed : IsNamed key (String.◌++◌ "json_" key)

IsNamed-if :
    {key s t : String} (b : Bool) → IsNamed key s → IsNamed key t → IsNamed key (if b then s else t)
IsNamed-if true x y = x
IsNamed-if false x y = y

absent : (o : Option String) → is_some o ≡ false → o ≡ none
absent none h = refl
absent (some v) h = cc

chosen : (b : Bool) (s t : String) → (if b then none else some s) ≡ some t → (b ≡ false) × (s ≡ t)
chosen true s t h = cc
chosen false s t h = (refl, cc)

-- The name that is chosen is one of the two, and no tag has it.
target_key-free :
    (key t : String) (tags : Dict String)
    → target_key key tags ≡ some t
    → (lookup t tags ≡ none) × IsNamed key t
unfolding target_key
target_key-free key t tags h =
    let (free, same) = chosen _ _ t h in
    (
      subst (λ (x : String). lookup x tags ≡ none) same (absent _ free),
      subst (IsNamed key) same (IsNamed-if _ prefixed (IsNamed-if _ prefixed plain)),
    )

module _ (sprint : ℕ → String) where
  -- The tag `name` holds the value of a key of the payload that is not sensitive, under the key's
  -- own name or after "json_".
  pub data IsCopied (name value : String) : Dict Json → Type 0 where
    here :
        {key : String} {json : Json} {rest : Dict Json}
        → is_sensitive_key key ≡ false
        → scalar_to_string sprint json ≡ some value
        → IsNamed key name
        → IsCopied name value ((key, json) ∷ rest)
    there :
        {field : String × Json} {rest : Dict Json}
        → IsCopied name value rest
        → IsCopied name value (field ∷ rest)

  -- A step that sets a tag.
  record Sets (key : String) (json : Json) (tags : Dict String) : Type 0 where
    target : String
    value : String
    step : copy_field sprint key json tags ≡ insert target value tags
    safe : is_sensitive_key key ≡ false
    scalar : scalar_to_string sprint json ≡ some value
    free : lookup target tags ≡ none
    named : IsNamed key target

  copy_field-Sets :
      (key : String) (json : Json) (tags : Dict String)
      → (copy_field sprint key json tags ≡ tags) ⊎ Sets key json tags
  unfolding copy_field
  copy_field-Sets key json tags = elim (Bool-cases (is_sensitive_key key)) [
    | inl secret ↦ inl (rw (copy_field, secret) refl)
    | inr safe ↦ elim (Option-cases (scalar_to_string sprint json)) [
      | inl nothing ↦ inl (rw (copy_field, safe, nothing) refl)
      | inr (s, scalar) ↦ elim (Bool-cases (str_eq s "")) [
        | inl empty ↦ inl (rw (copy_field, safe, scalar, empty) refl)
        | inr full ↦ elim (Option-cases (target_key key tags)) [
          | inl taken ↦ inl (rw (copy_field, safe, scalar, full, taken) refl)
          | inr (t, at) ↦
              let (free, named) = target_key-free key t tags at in
              inr (record {
                target = t;
                value = s;
                step = rw (copy_field, safe, scalar, full, at) refl;
                safe = safe;
                scalar = scalar;
                free = free;
                named = named;
              })
        ]
      ]
    ]
  ]

  -- What becomes of the tag `name`: it keeps what it was, or it was absent and is copied.
  pub data Becomes (name : String) (payload : Dict Json) (before after : Option String)
      : Type 0 where
    kept : after ≡ before → Becomes name payload before after
    copied :
        {value : String}
        → before ≡ none
        → after ≡ some value
        → IsCopied name value payload
        → Becomes name payload before after

  copy_field-Becomes :
      (key : String) (json : Json) (rest : Dict Json) (tags : Dict String) (name : String)
      → Becomes name
          ((key, json) ∷ rest)
          (lookup name tags)
          (lookup name (copy_field sprint key json tags))
  copy_field-Becomes key json rest tags name = elim (copy_field-Sets key json tags) [
    | inl same ↦ kept (ap (lookup name) same)
    | inr s ↦
        let set = ap (lookup name) s.step ∙ lookup-insert s.target name s.value tags in
        elim (Bool-cases (str_eq s.target name)) [
          | inl e ↦
              let same = (eq_iff s.target name).0 e in
              copied (subst (λ (x : String). lookup x tags ≡ none) same s.free)
                (set ∙ ap (λ (b : Bool). if b then some s.value else lookup name tags) e)
                (here s.safe s.scalar (subst (IsNamed key) same s.named))
          | inr e ↦ kept (set ∙ ap (λ (b : Bool). if b then some s.value else lookup name tags) e)
        ]
  ]

  Becomes-trans :
      (name : String) (field : String × Json) (rest : Dict Json)
      (before between after : Option String)
      → Becomes name (field ∷ rest) before between
      → Becomes name rest between after
      → Becomes name (field ∷ rest) before after
  Becomes-trans name field rest b m a (kept e) (kept f) = kept (f ∙ e)
  Becomes-trans name field rest b m a (kept e) (copied absent_before set c) =
      copied (sym e ∙ absent_before) set (there c)
  Becomes-trans name field rest b m a (copied absent_before set c) (kept f) =
      copied absent_before (f ∙ set) c
  Becomes-trans name field rest b m a (copied absent_before set c) (copied gone later d) = cc

  -- Whatever order Go takes the keys of a payload in, and for every name of a tag: what the tag
  -- holds after the fields of the payload are copied is what it held before; or it was absent, and
  -- holds the scalar value of a key of the payload that isSensitiveKey does not know, and is named by
  -- that key or by "json_" and that key.
  pub copy_safe_json_fields_to_tags-Becomes :
      (payload : Dict Json) (tags : Dict String) (name : String)
      → Becomes name payload
          (lookup name tags)
          (lookup name (copy_safe_json_fields_to_tags sprint payload tags))
  unfolding copy_safe_json_fields_to_tags
  copy_safe_json_fields_to_tags-Becomes [] tags name = kept refl
  copy_safe_json_fields_to_tags-Becomes ((key, json) ∷ rest) tags name =
      Becomes-trans name (key, json) rest _ _ _ (copy_field-Becomes key json rest tags name)
        (copy_safe_json_fields_to_tags-Becomes rest (copy_field sprint key json tags) name)
