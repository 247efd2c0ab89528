-- ===== src/Config/Env.antt =====
-- internal/config/config.go: the settings that come from the environment. os.Getenv, which gives
-- the empty text for a name that is not set, and strconv.Atoi are parameters.
use ot_collector.Prelude.{
  ℕ, ◌<◌, ◌≡◌, String, true, Option, none, some, ◌||◌, ℤ, is_pos, pos_part, pos, negsuc, str_eq,
  if◌then◌else◌, arith, Bool-cases, Option-cases, inl, inr, ltb→lt,
}
use ot_collector.Event.{or_default}

pub data Level : Type 0 where
  debug info warn error : Level

pub record Config : Type 0 where
  pub zone : String
  pub udp_syslog_addr : String
  pub tcp_syslog_addr : String
  pub api_addr : String
  pub events_file : String
  pub dmz_collector_url : String
  pub forward_timeout_seconds : ℕ
  pub forward_workers : ℕ
  pub forward_queue_size : ℕ
  pub forward_max_age_secs : ℕ
  pub log_level : Level

-- parseLevel
unfoldable pub parse_level : String → Level
parse_level v =
    if str_eq v "debug"
    then debug
    else if str_eq v "warn" || str_eq v "warning"
    then warn
    else if str_eq v "error"
    then error
    else info

module _ (env : String → String) (atoi : String → Option ℤ) where
  -- getenv
  unfoldable pub getenv : String → String → String
  getenv key def = or_default (env key) def

  -- parseIntEnv; the defaults in the code are all above 0
  unfoldable pub parse_int_env : String → ℕ → ℕ
  parse_int_env key def =
      if str_eq (env key) ""
      then def
      else (elim (atoi (env key)) [ none ↦ def | some n ↦ if is_pos n then pos_part n else def ])

  -- Load
  unfoldable pub load : Config
  load = record {
    zone = getenv "OT_COLLECTOR_ZONE" "OT";
    udp_syslog_addr = getenv "UDP_SYSLOG_ADDR" "0.0.0.0:514";
    tcp_syslog_addr = getenv "TCP_SYSLOG_ADDR" "0.0.0.0:1514";
    api_addr = getenv "API_ADDR" "0.0.0.0:8088";
    events_file = getenv "EVENTS_FILE" "/data/events.jsonl";
    dmz_collector_url = getenv "DMZ_COLLECTOR_URL" "";
    forward_timeout_seconds = parse_int_env "FORWARD_TIMEOUT_SECONDS" 10;
    forward_workers = parse_int_env "FORWARD_WORKERS" 4;
    forward_queue_size = parse_int_env "FORWARD_QUEUE_SIZE" 2048;
    forward_max_age_secs = parse_int_env "FORWARD_MAX_AGE_SECONDS" 30;
    log_level = parse_level (getenv "LOG_LEVEL" "info");
  }

  parse_int_env-positive : (key : String) (def : ℕ) → 0 < def → 0 < parse_int_env key def
  unfolding parse_int_env
  parse_int_env-positive key def h = elim (Bool-cases (str_eq (env key) "")) [
    | inl unset ↦ rw unset h
    | inr set ↦ elim (Option-cases (atoi (env key))) [
      | inl bad ↦ rw (set, bad) h
      | inr (n, parsed) ↦ elim (Bool-cases (is_pos n)) [
        | inr small ↦ rw (set, parsed, small) h
        | inl big ↦ rw (set, parsed, big) (positive n big)
      ]
    ]
  ]
    where
      positive : (n : ℤ) → is_pos n ≡ true → 0 < pos_part n
      positive (pos n) big = ltb→lt _ _ big
      positive (negsuc n) big = cc

  -- Whatever the environment holds, the timeout, the number of workers, the size of the queue and
  -- the age limit that are loaded are above 0.
  pub load_positive :
      (0 < load.forward_timeout_seconds)
      × (0 < load.forward_workers)
      × (0 < load.forward_queue_size)
      × (0 < load.forward_max_age_secs)
  unfolding load
  load_positive = (
    parse_int_env-positive "FORWARD_TIMEOUT_SECONDS" 10 (omega arith),
    parse_int_env-positive "FORWARD_WORKERS" 4 (omega arith),
    parse_int_env-positive "FORWARD_QUEUE_SIZE" 2048 (omega arith),
    parse_int_env-positive "FORWARD_MAX_AGE_SECONDS" 30 (omega arith),
  )
