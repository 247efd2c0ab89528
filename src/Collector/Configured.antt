-- ===== src/Collector/Configured.antt =====
-- The URL of the DMZ collector, which comes from the environment or from the forwarding settings.
use ot_collector.Prelude.{◌≡◌, refl, String, true, false, some, str_eq}
use ot_collector.GoText.{trim_space}
use ot_collector.Event.{Event, or_default}
use ot_collector.Config.Env.{Config}
use ot_collector.Forwarder.Queue.Process.{is_enabled, new_forwarder}
use ot_collector.Processor.{set_rules_of}
use ot_collector.Api.{post}
use ot_collector.Api.Server.{Formats}
use ot_collector.Api.ForwardingTest.{Sent, not_built, answer_of, handle_forwarding_test}
use ot_collector.Collector.{Collector, Disks, start, assemble, dmz_url, new_forwarding_store}
use ot_collector.Collector.Always.{start-assemble}

or_default-empty : (d : String) → or_default "" d ≡ d
unfolding or_default
or_default-empty d = refl

trim_space-empty : trim_space "" ≡ ""
unfolding trim_space
trim_space-empty = refl

-- A URL that comes from the environment alone is taken and not tested: if DMZ_COLLECTOR_URL is set to
-- more than blanks and the loaded settings have no URL, the forwarder of the started collector has
-- the URL of the environment, and Enabled() of it is true, but a test of forwarding answers that no URL
-- is configured, whatever a request to that URL would give.
pub start_untested :
    (f : Formats) (cfg : Config) (d : Disks) (c : Collector) (marshal : Event → String)
    (send : String → String → Sent) (now nanos : String)
    → start f d cfg ≡ some c
    → (new_forwarding_store f d).0.config.dmz_collector_url ≡ ""
    → str_eq (trim_space cfg.dmz_collector_url) "" ≡ false
    → (c.api.processor.forwarder.url ≡ trim_space cfg.dmz_collector_url)
      × (is_enabled c.api.processor.forwarder ≡ true)
      × (handle_forwarding_test marshal send post now nanos c.api
          ≡ (200, some (answer_of (not_built "forwarding URL not configured"))))
unfolding assemble dmz_url set_rules_of new_forwarder is_enabled handle_forwarding_test
start_untested f cfg d c marshal send now nanos e no_url url =
    rw (start-assemble f cfg d c e, no_url, or_default-empty, url, trim_space-empty)
      (refl, refl, refl)
