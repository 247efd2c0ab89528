-- ===== src/Normalizer/Filterlog.antt =====
-- The fields of a line of OPNsense's filterlog in internal/normalizer/normalizer.go. The first record
-- that encoding/csv reads and strconv.Itoa are parameters.
pub mod Fields
use Prim.Native.String
use ot_collector.Prelude.{
  ℕ, suc, zero, ◌+◌, String, Bool, true, false, ◌&&◌, ◌||◌, not, Option, none, some, List, [], ◌∷◌,
  Dict, insert, get_or_empty, str_eq, ltb, length, drop, if◌then◌else◌,
}
use ot_collector.GoText.{to_lower, trim_space, join}

-- record[i]
unfoldable pub get_elem? : List String → ℕ → Option String
get_elem? [] i = none
get_elem? (x ∷ xs) zero = some x
get_elem? (x ∷ xs) (suc i) = get_elem? xs i

-- The closure put
unfoldable pub put : List String → ℕ → String → Dict String → Dict String
put fields i key tags = elim (get_elem? fields i) [
  | none ↦ tags
  | some f ↦ if str_eq f "" then tags else insert key f tags
]

-- Calls of put, one after the other.
unfoldable pub put_all : List String → List (ℕ × String) → Dict String → Dict String
put_all fields [] tags = tags
put_all fields ((i, key) ∷ rest) tags = put_all fields rest (put fields i key tags)

abbrev pub ipv4_fields : List (ℕ × String)
ipv4_fields =
    (9, "tos")
    ∷ (10, "ecn")
    ∷ (11, "ttl")
    ∷ (12, "ip_id")
    ∷ (13, "offset")
    ∷ (14, "ip_flags")
    ∷ (15, "protocol_id")
    ∷ (16, "protocol_name")
    ∷ (17, "packet_length")
    ∷ (18, "src_ip")
    ∷ (19, "dst_ip")
    ∷ (20, "src_port")
    ∷ (21, "dst_port")
    ∷ (22, "data_length")
    ∷ []

abbrev pub ipv6_fields : List (ℕ × String)
ipv6_fields =
    (9, "traffic_class")
    ∷ (10, "flow_label")
    ∷ (11, "hop_limit")
    ∷ (12, "protocol_name")
    ∷ (13, "protocol_id")
    ∷ (14, "packet_length")
    ∷ (15, "src_ip")
    ∷ (16, "dst_ip")
    ∷ (17, "src_port")
    ∷ (18, "dst_port")
    ∷ (19, "data_length")
    ∷ []

-- The fields of TCP, from field `n`.
abbrev pub tcp_fields : ℕ → List (ℕ × String)
tcp_fields n =
    (n, "tcp_flags")
    ∷ (n + 1, "tcp_sequence")
    ∷ (n + 2, "tcp_ack")
    ∷ (n + 3, "tcp_window")
    ∷ (n + 4, "tcp_urg")
    ∷ []

-- The options of TCP, from field `n`.
unfoldable pub tcp_options : List String → ℕ → Dict String → Dict String
tcp_options fields n tags =
    let options = trim_space (join (drop n fields) ",") in
    if ltb n (length fields)
    then if str_eq options "" then tags else insert "tcp_options" options tags
    else tags

-- The protocol's name, in lower case.
unfoldable pub protocol_name : List String → ℕ → String
protocol_name fields i = elim (get_elem? fields i) [ none ↦ "" | some f ↦ to_lower f ]

-- filterlogParseResult, and the warning that parseFilterlogCSV returns beside it
pub record FilterlogParseResult : Type 0 where
  pub action : String
  pub reason : String
  pub direction : String
  pub tags : Dict String
  pub warning : String

-- record[i], of a record that is long enough
abbrev pub field_at : List String → ℕ → String
field_at fields i = elim (get_elem? fields i) [ none ↦ "" | some f ↦ f ]

abbrev pub result_of : List String → Dict String → String → FilterlogParseResult
result_of fields tags warning = record {
  action = field_at fields 6;
  reason = field_at fields 5;
  direction = field_at fields 7;
  tags = tags;
  warning = warning;
}

module _ (itoa : ℕ → String) where
  -- The rest of the fields of ICMP, numbered from `i`.
  unfoldable pub icmp_details : List String → ℕ → Dict String → Dict String
  icmp_details [] i tags = tags
  icmp_details (f ∷ fields) i tags =
      icmp_details fields (i + 1)
        (if str_eq f "" then tags else insert (String.◌++◌ "icmp_detail_" (itoa i)) f tags)

  -- parseFilterlogIPv4
  unfoldable pub parse_filterlog_ipv4 : List String → Dict String → Dict String
  parse_filterlog_ipv4 fields tags =
      let protocol = protocol_name fields 16 in
      let t = put_all fields ipv4_fields tags in
      let tcp =
        if ltb 23 (length fields) && str_eq protocol "tcp"
        then tcp_options fields 28 (put_all fields (tcp_fields 23) t)
        else t in
      if str_eq protocol "icmp"
      then icmp_details (drop 23 fields) 0
          (put_all fields ((20, "icmp_type") ∷ (21, "icmp_id") ∷ (22, "icmp_sequence") ∷ []) tcp)
      else tcp

  -- parseFilterlogIPv6
  unfoldable pub parse_filterlog_ipv6 : List String → Dict String → Dict String
  parse_filterlog_ipv6 fields tags =
      let protocol = protocol_name fields 12 in
      let t = put_all fields ipv6_fields tags in
      let tcp =
        if ltb 20 (length fields) && str_eq protocol "tcp"
        then tcp_options fields 25 (put_all fields (tcp_fields 20) t)
        else t in
      if str_eq protocol "icmpv6"
      then icmp_details (drop 18 fields) 0 (put fields 17 "icmp_type" tcp)
      else tcp

  -- The fields of a record of fewer than nine, numbered from `i`.
  unfoldable pub short_fields : List String → ℕ → Dict String → Dict String
  short_fields [] i tags = tags
  short_fields (f ∷ fields) i tags =
      short_fields fields (i + 1)
        (if str_eq f "" then tags else insert (String.◌++◌ "field_" (itoa i)) f tags)

  -- parseFilterlogCSV after the nine fields are there.
  unfoldable pub parse_fields : List String → FilterlogParseResult
  parse_fields fields =
      let t =
        put_all fields
          ((0, "rule_number")
            ∷ (1, "sub_rule_number")
            ∷ (2, "anchor")
            ∷ (3, "tracker")
            ∷ (4, "interface")
            ∷ (8, "ip_version")
            ∷ [])
          [] in
      let version = field_at fields 8 in
      if str_eq version "4"
      then result_of fields (parse_filterlog_ipv4 fields t) ""
      else if str_eq version "6"
      then result_of fields (parse_filterlog_ipv6 fields t) ""
      else result_of fields t "unknown ip_version"

  -- parseFilterlogCSV, on the record that the reader reads
  unfoldable pub parse_filterlog_csv : Option (List String) → FilterlogParseResult
  parse_filterlog_csv none = record {
    action = "";
    reason = "";
    direction = "";
    tags = [];
    warning = "invalid filterlog csv";
  }
  parse_filterlog_csv (some fields) =
      if ltb (length fields) 9
      then record {
        action = "";
        reason = "";
        direction = "";
        tags = short_fields fields 0 [];
        warning = "short filterlog csv";
      }
      else parse_fields fields
