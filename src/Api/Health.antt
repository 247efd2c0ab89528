-- ===== src/Api/Health.antt =====
-- handleHealth and the handlers of the statistics of internal/api/handlers.go, each the value that it
-- writes; health names its status and service besides.
use ot_collector.Prelude.{ℤ, ℕ, ◌≡◌, refl, String, Bool, List, some, Dict, Option-cases, inl, inr}
use ot_collector.Config.Store.{Write}
use ot_collector.Config.Forwarding.{ForwardingConfig, ConfigCodec}
use ot_collector.Stats.Views.{Snapshot, snapshot, Summary, summary, timeline_of}
use ot_collector.Processor.{update_forwarding_config}
use ot_collector.Api.{Api, post, handle_config_forwarding}

pub record Health : Type 0 where
  pub zone : String
  pub udp_syslog_port : ℤ
  pub tcp_syslog_port : ℤ
  pub api_port : ℤ
  pub events_file : String
  pub dmz_forwarding_enabled : Bool

unfoldable handle_health : Api → Health
handle_health a = record {
  zone = a.zone;
  udp_syslog_port = a.udp_port;
  tcp_syslog_port = a.tcp_port;
  api_port = a.api_port;
  events_file = a.events_file;
  dmz_forwarding_enabled = a.dmz_enabled;
}

unfoldable handle_stats : Api → Snapshot
handle_stats a = snapshot a.processor.stats

unfoldable handle_stats_summary : (Dict ℕ → Dict ℕ) → Api → Summary
handle_stats_summary sort a = summary sort a.processor.stats

unfoldable handle_stats_timeline : (List String → List String) → Api → Dict ℕ
handle_stats_timeline sort a = timeline_of sort a.processor.stats

-- Whatever forwarding settings are posted, and whether they are saved or not, health answers what it
-- answered before: it shows whether forwarding was on when the collector started.
health_stays :
    (codec : ConfigCodec) (w : Write) (cfg : ForwardingConfig) (a : Api)
    → handle_health (handle_config_forwarding codec w post (some cfg) a).0 ≡ handle_health a
unfolding handle_health handle_config_forwarding
health_stays codec w cfg a =
    elim (Option-cases (update_forwarding_config codec w cfg a.processor).1) [
      | inl e ↦ rw (handle_config_forwarding, e) refl
      | inr (x, e) ↦ rw (handle_config_forwarding, e) refl
    ]
