-- ===== src/Collector/Shutdown/Ends.antt =====
-- That main ends, and what it does not wait for.
use ot_collector.Prelude.{◌≡◌, Bool, true, ◌||◌, List, [], ◌∷◌}
use ot_collector.Collector.Shutdown.{
  udp_server, tcp_server, api_server, Shutdown, Notice, cancels, stops, consumer_stops, main_wakes,
  is_failed,
}

-- The servers that failed cancel, then all that still run stop.
abbrev stop_all : List Notice
stop_all = stops udp_server ∷ stops tcp_server ∷ stops api_server ∷ consumer_stops ∷ main_wakes ∷ []

abbrev pub wind_down : List Notice
wind_down = cancels udp_server ∷ cancels tcp_server ∷ cancels api_server ∷ stop_all

-- A context that is cancelled, or a server that has failed, is enough.
unfoldable pub is_told : Shutdown → Bool
is_told s = ((s.cancelled || is_failed s.udp) || is_failed s.tcp) || is_failed s.api

-- main has returned, and the workers and the connections are as they were.
pub record IsLeft (s later : Shutdown) : Type 0 where
  pub main_returned : later.returned ≡ true
  pub still_sending : later.busy_workers ≡ s.busy_workers
  pub still_open : later.connections ≡ s.connections
