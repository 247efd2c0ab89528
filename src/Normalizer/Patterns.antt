-- ===== src/Normalizer/Patterns.antt =====
-- internal/normalizer/patterns.go: what the words of a message say.

pub mod Agreement
use Prim.Native.Char.{Char, code}
use Prim.Native.String
use ot_collector.Prelude.{
  ℕ, String, Bool, true, false, ◌&&◌, ◌||◌, Option, none, some, List, [], ◌∷◌, Dict, insert, str_eq,
  leb, ◌==◌, if◌then◌else◌,
}
use ot_collector.GoText.{to_lower, to_upper, contains, contains_any, equal_fold}

-- A switch whose cases are words and a name.
unfoldable pub first_named : List (List String × String) → String → String → String
first_named [] default text = default
first_named ((needles, name) ∷ rest) default text =
    if contains_any text needles then name else first_named rest default text

-- isOPCUAMessage
unfoldable pub is_opcua_message : String → Bool
is_opcua_message msg = contains (to_upper msg) "[OPCUA]"

abbrev pub refusals : List String
refusals = "rejected" ∷ "unauthorized" ∷ "invalid certificate" ∷ "bad user" ∷ "denied" ∷ []

-- classifyOPCUASeverity; none is its second result false.
unfoldable pub classify_opcua_severity : String → Option String
classify_opcua_severity msg =
    let u = to_upper msg in
    let l = to_lower msg in
    if contains u "[ERROR]"
    then some "error"
    else if contains u "[SHUTDOWN]" || contains u "[STARTUP]"
    then some "info"
    else if contains u "[SECURITY]"
        || contains_any l (
            "rejected connection" ∷ "rejected" ∷ "unauthorized" ∷ "denied" ∷ "invalid certificate"
            ∷ [])
    then some "warning"
    else if contains_any l ("authentication failed" ∷ "bad user" ∷ [])
    then some "error"
    else if contains u "[CMD]" && contains_any u ("MODE=PULSE" ∷ "MODE=MAINTAINED" ∷ [])
    then if contains_any l (
        "protected tag" ∷ "safety tag" ∷ "emergency" ∷ "reset" ∷ "unauthorized" ∷ "guest" ∷ "failed"
        ∷ [])
      then some "warning"
      else some "info"
    else if contains_any l ("protected tag" ∷ "safety tag" ∷ "emergency" ∷ "reset" ∷ [])
    then some "warning"
    else none

-- The severity that a syslog severity number stands for.
unfoldable pub numbered_severity : Option ℕ → String
numbered_severity none = "info"
numbered_severity (some n) =
    if leb n 2
    then "critical"
    else if n == 3
    then "error"
    else if n == 4
    then "warning"
    else if n == 7
    then "debug"
    else "info"

abbrev severity_words : List (List String × String)
severity_words =
    ("[critical]" ∷ "fatal" ∷ "critical" ∷ [], "critical")
    ∷ ("[error]" ∷ " error" ∷ [], "error")
    ∷ ("[warn]" ∷ "warning" ∷ " warn" ∷ [], "warning")
    ∷ ("[debug]" ∷ "debug" ∷ [], "debug")
    ∷ ("[info]" ∷ " info" ∷ [], "info")
    ∷ []

-- classifySeverity
unfoldable pub classify_severity : String → Option ℕ → String
classify_severity msg number = elim (classify_opcua_severity msg) [
  | some severity ↦ severity
  | none ↦ first_named severity_words (numbered_severity number) (to_lower msg)
]

-- classifyOPCUACategory
unfoldable pub classify_opcua_category : String → String
classify_opcua_category msg =
    let u = to_upper msg in
    let l = to_lower msg in
    if contains u "[READ][CMD]"
    then "operator_read"
    else if contains u "[WRITE][CMD]"
    then "operator_write"
    else if contains u "[CMD]"
    then "operator_action"
    else if contains u "[SESSION]"
    then "network"
    else if contains u "[SECURITY]"
    then "security"
    else if contains u "[STARTUP]" || contains u "[SHUTDOWN]"
    then "runtime"
    else if contains u "[ERROR]"
    then first_named
        ((
          "rejected" ∷ "unauthorized" ∷ "invalid certificate" ∷ "bad user" ∷ "denied" ∷ [],
          "security",
        )
          ∷ ("timeout" ∷ "disconnected" ∷ "connection failed" ∷ [], "communication")
          ∷ [])
        "system" l
    else first_named
        (("rejected connection" ∷ [], "security")
          ∷ ("client session created" ∷ "client session closed" ∷ [], "network")
          ∷ [])
        "system" l

abbrev category_words : List (List String × String)
category_words =
    (
      "failed login" ∷ "unauthorized" ∷ "protected tag" ∷ "illegal data address"
          ∷ "illegal function" ∷ "rejected connection" ∷ "rejected" ∷ "invalid command" ∷ [],
      "security",
    )
    ∷ ("user " ∷ " wrote value" ∷ "set tag" ∷ " command" ∷ "operator" ∷ [], "operator_action")
    ∷ (
      "timeout" ∷ "retry" ∷ "max retry" ∷ "connection failed" ∷ "polling error" ∷ [],
      "communication",
    )
    ∷ (
      "client accepted" ∷ "client connected" ∷ "new client connected" ∷ "closed the connection"
          ∷ "disconnected" ∷ [],
      "network",
    )
    ∷ (
      "scan cycle time exceeded" ∷ "runtime" ∷ "program started" ∷ "server started" ∷ "version"
          ∷ "starting" ∷ [],
      "runtime",
    )
    ∷ ("alarm" ∷ "high priority" ∷ "threshold" ∷ [], "alarm")
    ∷ []

-- classifyCategory
unfoldable pub classify_category : String → String
classify_category msg =
    if is_opcua_message msg
    then classify_opcua_category msg
    else first_named category_words "system" (to_lower msg)
