-- ===== src/Config/Forwarding.antt =====
-- internal/config/forwarding_config.go: the forwarding settings, their counters and their store.
pub mod Counters
use ot_collector.Prelude.{
  ℕ, ◌+◌, String, Bool, true, false, Option, none, some, str_eq, if◌then◌else◌,
}
use ot_collector.Event.{or_default}
use ot_collector.Config.Store.{
  Write, written, broken, Read, missing, unreadable, contents, Error, mkdir_failed, read_failed,
  decode_failed, encode_failed, write_failed,
}

pub record ForwardingConfig : Type 0 where
  pub dmz_collector_url : String
  pub enabled : Bool
  pub forward_only_filtered : Bool
  pub forward_queue_status : String
  pub failed_forward_count : ℕ
  pub successful_forward_count : ℕ
  pub last_successful_forward_at : String
  pub last_failed_forward_at : String
  pub last_forward_attempt_at : String
  pub last_forwarded_event_id : String
  pub last_failed_event_id : String
  pub last_error : String
  pub queued_count : ℕ
  pub in_flight_count : ℕ

-- The zero value of the struct.
abbrev pub zero_config : ForwardingConfig
zero_config = record {
  dmz_collector_url = "";
  enabled = false;
  forward_only_filtered = false;
  forward_queue_status = "";
  failed_forward_count = 0;
  successful_forward_count = 0;
  last_successful_forward_at = "";
  last_failed_forward_at = "";
  last_forward_attempt_at = "";
  last_forwarded_event_id = "";
  last_failed_event_id = "";
  last_error = "";
  queued_count = 0;
  in_flight_count = 0;
}

pub record ForwardingStore : Type 0 where
  pub config : ForwardingConfig
  pub file : Option String

-- JSON of one config. Decoding starts from the config at hand and overwrites the fields present.
pub record ConfigCodec : Type 0 where
  pub encode : ForwardingConfig → Option String
  pub decode : String → ForwardingConfig → Option ForwardingConfig

-- The change that UpdateForwardResult makes.
unfoldable pub record_result : Bool → String → String → String → ForwardingConfig → ForwardingConfig
record_result true when err_msg event_id c = record c {
  last_forward_attempt_at = when;
  last_successful_forward_at = when;
  successful_forward_count = c.successful_forward_count + 1;
  last_forwarded_event_id = event_id;
  last_error = "";
}
record_result false when err_msg event_id c = record c {
  last_forward_attempt_at = when;
  failed_forward_count = c.failed_forward_count + 1;
  last_failed_forward_at = when;
  last_failed_event_id = event_id;
  last_error = if str_eq err_msg "" then c.last_error else err_msg;
}

-- The end of loadOrInit: the status has its default and the live counts start at 0.
unfoldable pub start_config : ForwardingConfig → ForwardingConfig
start_config c = record c {
  forward_queue_status = or_default c.forward_queue_status "ok";
  queued_count = 0;
  in_flight_count = 0;
}

module _ (codec : ConfigCodec) where
  -- persistLocked
  unfoldable pub persist_config : Write → ForwardingStore → ForwardingStore × Option Error
  persist_config w s = elim (codec.encode s.config) [
    | none ↦ (s, some encode_failed)
    | some b ↦ elim w [
      | written ↦ (record s { file = some b }, none)
      | broken rest ↦ (record s { file = rest }, some write_failed)
    ]
  ]

  -- Replace
  unfoldable pub replace_config :
      Write → ForwardingConfig → ForwardingStore → ForwardingStore × Option Error
  replace_config w c s = persist_config w (record s {
    config = record c { forward_queue_status = or_default c.forward_queue_status "ok" };
  })

  -- UpdateForwardResult
  unfoldable pub update_forward_result :
      Write → Bool → String → String → String → ForwardingStore → ForwardingStore × Option Error
  update_forward_result w success when err_msg event_id s =
      persist_config w (record s { config = record_result success when err_msg event_id s.config })

  -- json.Unmarshal, made only of a file that is not empty
  unfoldable pub parse_config : String → ForwardingConfig → Option ForwardingConfig
  parse_config b c = if str_eq b "" then some c else codec.decode b c

  -- loadOrInit
  unfoldable pub load_config :
      Bool → Read → Write → ForwardingStore → ForwardingStore × Option Error
  load_config false r w s = (s, some mkdir_failed)
  load_config true missing w s = persist_config w (record s {
    config = record zero_config { forward_only_filtered = true; forward_queue_status = "ok" };
  })
  load_config true unreadable w s = (s, some read_failed)
  load_config true (contents b) w s = elim (parse_config b s.config) [
    | none ↦ (s, some decode_failed)
    | some c ↦ persist_config w (record s { config = start_config c })
  ]
