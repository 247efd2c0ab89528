-- ===== src/Processor/Settings.antt =====
-- What the processor of cmd/ot-collector/main.go shows of its settings, and the helpers of main that
-- read an address and a time stamp.
use Prim.Native.Char.{code}
use Prim.Native.String
use ot_collector.Prelude.{ℕ, String, Option, none, some, Dict, [], ◌∷◌, ◌==◌, if◌then◌else◌, ℤ, pos}
use ot_collector.Config.Forwarding.{ForwardingConfig}
use ot_collector.Processor.{Processor}

-- ForwardQueueStats; the second number is the tasks that workers are busy with.
unfoldable pub forward_queue_stats : ℕ → Processor → ℕ × ℕ
forward_queue_stats in_flight p = elim p.forward_queue [
  | none ↦ (0, 0)
  | some q ↦ (q.queued, in_flight)
]

-- ForwardingConfig
unfoldable pub forwarding_config : ℕ → Processor → ForwardingConfig
forwarding_config in_flight p = elim p.forward_queue [
  | none ↦ p.forwarding.config
  | some q ↦ record p.forwarding.config { queued_count = q.queued; in_flight_count = in_flight }
]

-- CurrentFilterConfig, and UpdateFilterConfig, which ignores what it is given.
unfoldable pub current_filter_config : Dict String
current_filter_config = ("mode", "rule_matrix") ∷ []

unfoldable pub update_filter_config : Dict String → Dict String
update_filter_config cfg = current_filter_config

-- parseMinuteBucket, with time.Parse and Format
unfoldable pub parse_minute_bucket :
    {T : Type 0} → (String → Option T) → (T → String) → T → String → String
parse_minute_bucket parse format now ts = elim (parse ts) [ none ↦ format now | some t ↦ format t ]

-- What follows the last colon of a text, which is `part` so far.
unfoldable pub last_part : String → String → String
last_part part String.[] = part
last_part part (String.◌∷◌ c s) =
    let restart = last_part "" s in
    let longer = last_part (String.◌++◌ part (String.◌∷◌ c "")) s in
    if code c == 58 then restart else longer

-- extractPort, with net.SplitHostPort, which gives the host and the port, and strconv.Atoi
unfoldable pub extract_port : (String → Option (String × String)) → (String → Option ℤ) → String → ℤ
extract_port split atoi addr =
    let p : String = elim (split addr) [ none ↦ last_part "" addr | some (host, port) ↦ port ] in
    elim (atoi p) [ none ↦ pos 0 | some n ↦ n ]
