-- ===== src/Sources/Agreement.antt =====
-- The table of known sources and the resolver.
use mathlib.Core.Path.{subst}
use mathlib.Core.Option
use ot_collector.Prelude.{
  ◌≡◌, refl, ap, ◌∙◌, String, Bool, true, false, ◌&&◌, some, List, [], ◌∷◌, All, Bool-cases, inl,
  inr, str_eq, eq_iff, Dict, lookup, lookup-insert,
}
use ot_collector.Config.Sources.{SourceConfig}
use ot_collector.Sources.{SourceInfo, info, source_at, resolve, known_from, known}

-- No source has the address.
abbrev pub HasNone : String → List SourceConfig → Type 0
HasNone ip ss = All (λ s. str_eq s.ip ip ≡ false) ss

-- No two sources have one address.
abbrev pub AreDistinct : List SourceConfig → Type 0
AreDistinct [] = Unit
AreDistinct (s ∷ ss) = HasNone s.ip ss × AreDistinct ss

known_from-absent :
    (ip : String) (ss : List SourceConfig) (out : Dict SourceInfo)
    → HasNone ip ss
    → lookup ip (known_from ss out) ≡ lookup ip out
unfolding known_from
known_from-absent ip [] out _ = refl
known_from-absent ip (s ∷ ss) out (other, others) =
    known_from-absent ip ss _ others ∙ rw (lookup-insert, other)

hit_ip : (enabled : Bool) (a b : String) → enabled && str_eq a b ≡ true → str_eq a b ≡ true
hit_ip true a b h = h
hit_ip false a b h = cc

known_from-source_at :
    (ip : String) (ss : List SourceConfig) (out : Dict SourceInfo) (s : SourceConfig)
    → AreDistinct ss
    → source_at ip ss ≡ some s
    → lookup ip (known_from ss out) ≡ some (info s.name s.type s.ip)
unfolding known_from source_at
known_from-source_at ip [] out s _ found = cc
known_from-source_at ip (t ∷ ss) out s (apart, distinct) found =
    elim (Bool-cases (t.enabled && str_eq t.ip ip)) [
      | inl hit ↦
          let ips = hit_ip t.enabled t.ip ip hit in
          let none_left = subst (λ a. HasNone a ss) ((eq_iff t.ip ip).0 ips) apart in
          let same : some t ≡ some s = rw hit at found in
          known_from-absent ip ss _ none_left
          ∙ rw (lookup-insert, ips)
              (ap (Option.map (λ (u : SourceConfig). info u.name u.type u.ip)) same)
      | inr miss ↦ known_from-source_at ip ss _ s distinct (rw miss at found)
    ]

-- In a store with one source to an address, what the table of known sources holds for the address
-- of an enabled source is what Resolve answers for it, whatever the words of the message.
pub resolve-known :
    (ip host app message : String) (store : List SourceConfig) (s : SourceConfig)
    → AreDistinct store
    → source_at ip store ≡ some s
    → lookup ip (known (some store)) ≡ some (resolve (some store) ip host app message)
unfolding known resolve
resolve-known ip host app message store s distinct found =
    known_from-source_at ip store [] s distinct found ∙ rw (resolve, found)
