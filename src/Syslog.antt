-- ===== src/Syslog.antt =====
-- internal/syslog/parser.go: a line of syslog as its parts. The two regular expressions and the
-- time layouts are those of Go's packages regexp and time, and are parameters: a match is a record of
-- the groups that the code reads.
pub mod Parts
pub mod Server
use Prim.Native.Char.{code}
use Prim.Native.String
use ot_collector.Prelude.{
  ℕ, ◌/◌, ◌%◌, String, Bool, ◌||◌, Option, none, some, ◌==◌, str_eq, if◌then◌else◌,
}
use ot_collector.GoText.{trim_space, has_prefix}

pub record ParsedMessage : Type 0 where
  pub priority : Option ℕ
  pub facility : Option ℕ
  pub severity_number : Option ℕ
  pub timestamp : String
  pub hostname : String
  pub app_name : String
  pub message : String
  pub raw : String
  pub format : String

-- The groups of a match: 1, 3, 4, 5 and 8 of rfc5424RE, and 1 to 5 of rfc3164RE.
pub record Groups : Type 0 where
  pub digits : String
  pub time : String
  pub host : String
  pub app : String
  pub rest : String

pub record Library : Type 0 where
  pub rfc5424_re : String → Option Groups
  pub rfc3164_re : String → Option Groups
  pub atoi : String → Option ℕ
  pub now : String
  pub rfc3339_nano : String → Option String
  pub rfc3339 : String → Option String
  pub month_day_time : String → Option String

-- The text in front of the first "[".
unfoldable pub before_bracket : String → String
before_bracket String.[] = ""
before_bracket (String.◌∷◌ c s) = if code c == 91 then "" else String.◌∷◌ c (before_bracket s)

-- normalizeAppName
unfoldable pub normalize_app_name : String → String
normalize_app_name app = let a = trim_space app in if has_prefix a "[" then a else before_bracket a

module _ (go : Library) where
  -- The number of the first group; Atoi gives 0 beside an error.
  unfoldable pub priority_of : String → ℕ
  priority_of digits = elim (go.atoi digits) [ none ↦ 0 | some p ↦ p ]

  -- parseRFC3164Timestamp
  unfoldable pub parse_rfc3164_timestamp : String → String
  parse_rfc3164_timestamp ts = elim (go.month_day_time ts) [ none ↦ go.now | some t ↦ t ]

  -- normalizeTime
  unfoldable pub normalize_time : String → String
  normalize_time ts = if str_eq ts "" || str_eq ts "-" then go.now else (elim (go.rfc3339_nano ts) [
    | some t ↦ t
    | none ↦ elim (go.rfc3339 ts) [ some t ↦ t | none ↦ go.now ]
  ])

  unfoldable pub raw_message : String → ParsedMessage
  raw_message raw = record {
    priority = none;
    facility = none;
    severity_number = none;
    timestamp = go.now;
    hostname = "";
    app_name = "";
    message = raw;
    raw = raw;
    format = "raw";
  }

  -- The message of a match of rfc5424RE.
  unfoldable pub rfc5424_message : String → Groups → ParsedMessage
  rfc5424_message raw m =
      let p = priority_of m.digits in
      let msg = trim_space m.rest in
      record {
        priority = some p;
        facility = some (p / 8);
        severity_number = some (p % 8);
        timestamp = normalize_time m.time;
        hostname = m.host;
        app_name = m.app;
        message = if str_eq msg "" then raw else msg;
        raw = raw;
        format = "rfc5424";
      }

  -- The message of a match of rfc3164RE, whose priority may be missing.
  unfoldable pub rfc3164_message : String → Groups → ParsedMessage
  rfc3164_message raw m =
      let p = if str_eq m.digits "" then none else some (priority_of m.digits) in
      record {
        priority = p;
        facility = elim p [ none ↦ none | some n ↦ some (n / 8) ];
        severity_number = elim p [ none ↦ none | some n ↦ some (n % 8) ];
        timestamp = parse_rfc3164_timestamp m.time;
        hostname = m.host;
        app_name = normalize_app_name m.app;
        message = trim_space m.rest;
        raw = raw;
        format = "rfc3164";
      }

  unfoldable pub parse_trimmed : String → ParsedMessage
  parse_trimmed raw = if str_eq raw "" then raw_message "" else (elim (go.rfc5424_re raw) [
    | some m ↦ rfc5424_message raw m
    | none ↦ elim (go.rfc3164_re raw) [ some m ↦ rfc3164_message raw m | none ↦ raw_message raw ]
  ])

  -- Parse
  unfoldable pub parse : String → ParsedMessage
  parse raw = parse_trimmed (trim_space raw)
