-- ===== src/Normalizer/Firewall/Icmp.antt =====
-- The lines of filterlog over IPv4, and what those of ICMP look like.
use ot_collector.Prelude.{
  ◌≡◌, refl, ◌∙◌, ◌<◌, ℕ, zero, suc, arith, String, true, false, ◌&&◌, some, List, [], ◌∷◌, Dict,
  lookup, get_or_empty, lookup-insert, str_eq, ltb, length, drop, Bool-cases, ◌⊎◌, inl, inr,
}
use ot_collector.GoText.{to_lower}
use ot_collector.Normalizer.Filterlog.{
  get_elem?, put_all, ipv4_fields, tcp_fields, protocol_name, parse_filterlog_ipv4, parse_fields,
  parse_filterlog_csv, field_at, FilterlogParseResult,
}
use ot_collector.Normalizer.Filterlog.Fields.{
  IsField, here, there, apart, apart-field, starts-field, put_all-new, put_all-field,
  icmp_details-other, append-other, tcp-other,
}
use ot_collector.Normalizer.Firewall.{is_high_value_firewall_event, value_tags}

abbrev icmp_fields : List (ℕ × String)
icmp_fields = (20, "icmp_type") ∷ (21, "icmp_id") ∷ (22, "icmp_sequence") ∷ []

no_icmp : apart ipv4_fields icmp_fields ≡ true
no_icmp = refl

no_tcp : apart ipv4_fields ((0, "tcp_options") ∷ tcp_fields 23) ≡ true
no_tcp = refl

module _ (itoa : ℕ → String) (fields : List String) (tags : Dict String) where
  -- Whatever the protocol of a record over IPv4: each of the fields 9 to 22 that the record has
  -- and that is not empty becomes the tag of its name, and no other field takes its place.
  parse_filterlog_ipv4-field :
      (i : ℕ) (key f : String)
      → IsField i key ipv4_fields
      → get_elem? fields i ≡ some f
      → str_eq f "" ≡ false
      → lookup key (parse_filterlog_ipv4 itoa fields tags) ≡ some f
  unfolding parse_filterlog_ipv4
  parse_filterlog_ipv4-field i key f h at full =
      let found = put_all-field fields ipv4_fields i key f tags refl h at full in
      let tcp =
        tcp-other fields key (ltb 23 (length fields) && str_eq (protocol_name fields 16) "tcp")
          (put_all fields ipv4_fields tags)
          (apart-field ipv4_fields ((0, "tcp_options") ∷ tcp_fields 23) i key no_tcp h) in
      elim (Bool-cases (str_eq (protocol_name fields 16) "icmp")) [
        | inr other ↦ rw other (tcp ∙ found)
        | inl icmp ↦ rw icmp (
            icmp_details-other itoa key
              (λ s.
                append-other "icmp_detail_" s key
                  (starts-field ipv4_fields i key "icmp_detail_" refl h))
              (drop 23 fields) 0 _
            ∙ put_all-new fields icmp_fields key _
                (apart-field ipv4_fields icmp_fields i key no_icmp h)
            ∙ tcp
            ∙ found)
      ]

  icmp_id-tag :
      (f : String)
      → str_eq (protocol_name fields 16) "icmp" ≡ true
      → get_elem? fields 21 ≡ some f
      → str_eq f "" ≡ false
      → lookup "icmp_id" (parse_filterlog_ipv4 itoa fields tags) ≡ some f
  unfolding parse_filterlog_ipv4
  icmp_id-tag f icmp at full = rw icmp (
      icmp_details-other itoa "icmp_id" (λ s. append-other "icmp_detail_" s "icmp_id" refl)
        (drop 23 fields) 0 _
      ∙ put_all-field fields icmp_fields 21 "icmp_id" f _ refl (there here) at full)

get_elem?-length :
    (fields : List String) (i : ℕ) (f : String) → get_elem? fields i ≡ some f → i < length fields
unfolding get_elem?
get_elem?-length [] i f h = cc
get_elem?-length (x ∷ xs) zero f h = omega arith
get_elem?-length (x ∷ xs) (suc i) f h = omega (arith, get_elem?-length xs i f h)

abbrev pub result : (ℕ → String) → List String → FilterlogParseResult
result itoa fields = parse_filterlog_csv itoa (some fields)

value_tags-high :
    (r : FilterlogParseResult) (port : String) (tags : Dict String)
    → lookup "dst_port" r.tags ≡ some port
    → is_high_value_firewall_event (to_lower r.action) port (to_lower r.direction) ≡ true
    → lookup "high_value_firewall_event" (value_tags r tags) ≡ some "true"
unfolding get_or_empty value_tags
value_tags-high r port tags at high =
    let same : get_or_empty "dst_port" r.tags ≡ port = rw (get_or_empty, at) refl in
    rw (value_tags, same, high) (rw (lookup-insert, lookup-insert, lookup-insert) refl)

module _ (itoa : ℕ → String) (fields : List String) (id : String)
    (ipv4 : str_eq (field_at fields 8) "4" ≡ true)
    (icmp : str_eq (protocol_name fields 16) "icmp" ≡ true) (at : get_elem? fields 21 ≡ some id)
    (full : str_eq id "" ≡ false) where
  long_enough : ltb (length fields) 9 ≡ false
  long_enough = ground (arith, get_elem?-length fields 21 id at)

  dst_port-tag : lookup "dst_port" (result itoa fields).tags ≡ some id
  unfolding parse_filterlog_csv parse_fields
  dst_port-tag =
      rw (long_enough, ipv4)
        (parse_filterlog_ipv4-field itoa fields _ 21 "dst_port" id
          (there (
            there
              (there (there (there (there (there (there (there (there (there (there here))))))))))))
          at full)

  icmp_id-result : lookup "icmp_id" (result itoa fields).tags ≡ some id
  unfolding parse_filterlog_csv parse_fields
  icmp_id-result = rw (long_enough, ipv4) (icmp_id-tag itoa fields _ id icmp at full)

  -- A line of ICMP over IPv4 is judged by its id, as if that were a port: if the record has a
  -- field 21 that is not empty, the tags icmp_id and dst_port of it are both that field; and if
  -- isHighValueFirewallEvent holds of the packet's action and direction with the id as the port, the
  -- event is tagged as one of high value.
  pub icmp_judged_by_id :
      (tags : Dict String)
      → (lookup "icmp_id" (result itoa fields).tags ≡ some id)
        × (lookup "dst_port" (result itoa fields).tags ≡ some id)
        × ((is_high_value_firewall_event
                (to_lower (result itoa fields).action)
                id
                (to_lower (result itoa fields).direction)
              ≡ false)
            ⊎ (lookup "high_value_firewall_event" (value_tags (result itoa fields) tags)
                ≡ some "true"))
  icmp_judged_by_id tags = (
    icmp_id-result,
    dst_port-tag,
    elim (Bool-cases (
        is_high_value_firewall_event (to_lower (result itoa fields).action) id
          (to_lower (result itoa fields).direction))) [
            | inl high ↦ inr (value_tags-high (result itoa fields) id tags dst_port-tag high)
            | inr low ↦ inl low
          ],
  )
