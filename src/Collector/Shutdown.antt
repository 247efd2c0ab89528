-- ===== src/Collector/Shutdown.antt =====
-- How main of cmd/ot-collector/main.go ends: the four goroutines of its WaitGroup, which take lines
-- and serve, and main itself, which waits for ctx.Done and for those. The workers of the forward
-- queue and the goroutines of the TCP connections are in no WaitGroup that is waited for: they are
-- counted here while they are at work.
pub mod Ends
use ot_collector.Prelude.{ℕ, ◌+◌, ◌-◌, Bool, true, false, ◌&&◌, ◌||◌, List, [], ◌∷◌, if◌then◌else◌}

-- A goroutine of the WaitGroup: a server that has returned an error still has to call cancel.
pub data Stage : Type 0 where
  running failed ended : Stage

-- The goroutine that takes lines returns no error.
pub data Server : Type 0 where
  udp_server tcp_server api_server : Server

pub record Shutdown : Type 0 where
  pub cancelled : Bool
  pub consumer_ended : Bool
  pub udp : Stage
  pub tcp : Stage
  pub api : Stage
  pub busy_workers : ℕ
  pub connections : ℕ
  pub returned : Bool

abbrev pub launched : Shutdown
launched = record {
  cancelled = false;
  consumer_ended = false;
  udp = running;
  tcp = running;
  api = running;
  busy_workers = 0;
  connections = 0;
  returned = false;
}

abbrev pub is_ended : Stage → Bool
is_ended ended = true
is_ended _ = false

abbrev is_running : Stage → Bool
is_running running = true
is_running _ = false

abbrev pub is_failed : Stage → Bool
is_failed failed = true
is_failed _ = false

-- RunUDPServer, RunTCPServer or Run returns an error.
unfoldable pub fail : Stage → Stage
fail running = failed
fail x = x

-- cancel() and wg.Done() after an error
unfoldable pub end_failed : Stage → Stage
end_failed failed = ended
end_failed x = x

-- A return at ctx.Done, and wg.Done()
unfoldable pub end_running : Stage → Stage
end_running running = ended
end_running x = x

unfoldable pub stage_of : Server → Shutdown → Stage
stage_of udp_server s = s.udp
stage_of tcp_server s = s.tcp
stage_of api_server s = s.api

unfoldable pub change : (Stage → Stage) → Server → Shutdown → Shutdown
change f udp_server s = record s { udp = f s.udp }
change f tcp_server s = record s { tcp = f s.tcp }
change f api_server s = record s { api = f s.api }

unfoldable pub all_ended : Shutdown → Bool
all_ended s = (s.consumer_ended && is_ended s.udp) && (is_ended s.tcp && is_ended s.api)

pub data Notice : Type 0 where
  -- os.Interrupt or SIGTERM
  interrupted : Notice
  fails : Server → Notice
  cancels : Server → Notice
  stops : Server → Notice
  consumer_stops : Notice
  -- a worker of the forward queue takes a task, and is done with it
  worker_takes : Notice
  worker_done : Notice
  -- RunTCPServer accepts a connection, and handleTCPConn returns
  accepts : Notice
  disconnects : Notice
  -- main has waited for the four
  main_wakes : Notice

unfoldable pub advance : Notice → Shutdown → Shutdown
advance interrupted s = record s { cancelled = true }
advance (fails x) s = change fail x s
advance (cancels x) s =
    change end_failed x (record s { cancelled = s.cancelled || is_failed (stage_of x s) })
advance (stops x) s = if s.cancelled then change end_running x s else s
advance consumer_stops s = if s.cancelled then record s { consumer_ended = true } else s
advance worker_takes s = record s { busy_workers = s.busy_workers + 1 }
advance worker_done s = record s { busy_workers = s.busy_workers - 1 }
advance accepts s = if is_running s.tcp then record s { connections = s.connections + 1 } else s
advance disconnects s = record s { connections = s.connections - 1 }
advance main_wakes s = if s.cancelled && all_ended s then record s { returned = true } else s

unfoldable pub advance_all : List Notice → Shutdown → Shutdown
advance_all [] s = s
advance_all (n ∷ ns) s = advance_all ns (advance n s)
