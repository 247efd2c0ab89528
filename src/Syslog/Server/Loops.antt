-- ===== src/Syslog/Server/Loops.antt =====
-- The loops of internal/syslog/tcp.go and udp.go over what their sockets give, with the rounds in
-- which a select takes ctx.Done. `handle_tcp_conn` is a connection that is never stopped.
pub mod Begins
use ot_collector.Prelude.{
  String, Bool, true, false, ◌||◌, Option, none, some, List, [], ◌∷◌, str_eq, if◌then◌else◌,
}
use ot_collector.GoText.{trim_space}
use ot_collector.Syslog.Server.{IncomingLog, udp_message}

-- A loop waits for its socket, or has returned nil, or has not begun since listening failed.
pub data End : Type 0 where
  waits returned not_listening : End

-- What ReadFrom gives: a datagram, with the address of its sender if it is a UDPAddr, or an error,
-- which is net.ErrClosed or another one.
pub data Received : Type 0 where
  datagram : Option String → String → Received
  closed : Received
  read_failed : Received

-- A round of RunUDPServer; `stopped` when its select takes ctx.Done.
pub record UdpRound : Type 0 where
  pub received : Received
  pub stopped : Bool

abbrev pub ip_of : Option String → String
ip_of none = ""
ip_of (some ip) = ip

-- The loop of RunUDPServer.
unfoldable pub read_datagrams : List UdpRound → List IncomingLog × End
read_datagrams [] = ([], waits)
read_datagrams (r ∷ rs) =
    let rest = read_datagrams rs in
    if r.stopped then ([], returned) else (elim r.received [
      | datagram ip text ↦ (udp_message (ip_of ip) text ∷ rest.0, rest.1)
      | closed ↦ ([], returned)
      | read_failed ↦ rest
    ])

-- RunUDPServer, whether it can listen or not
unfoldable pub run_udp_server : Bool → List UdpRound → List IncomingLog × End
run_udp_server listens rs = if listens then read_datagrams rs else ([], not_listening)

-- A round of handleTCPConn: its first select, what ReadString gives (none with an error), and the
-- select of the send, which is not reached for a blank line.
pub record LineRound : Type 0 where
  pub stopped_before : Bool
  pub line : Option String
  pub stopped_sending : Bool

-- The loop of handleTCPConn.
unfoldable pub read_lines : String → List LineRound → List IncomingLog × End
read_lines ip [] = ([], waits)
read_lines ip (r ∷ rs) =
    let rest = read_lines ip rs in
    if r.stopped_before then ([], returned) else (elim r.line [
      | none ↦ ([], returned)
      | some line ↦
          let raw = trim_space line in
          if str_eq raw ""
          then rest
          else if r.stopped_sending
          then ([], returned)
          else (record { raw = raw; source_ip = ip; transport = "tcp" } ∷ rest.0, rest.1)
    ])

-- What Accept gives: a connection, with its address and its rounds, or an error.
pub data Accepted : Type 0 where
  connected : Option String → List LineRound → Accepted
  listener_closed : Accepted
  accept_failed : Accepted

-- A round of RunTCPServer; `stopped` when the select after an error takes ctx.Done.
pub record AcceptRound : Type 0 where
  pub accepted : Accepted
  pub stopped : Bool

-- The loop of RunTCPServer: what each connection hands on, each in a goroutine of its own.
unfoldable pub accept_conns : List AcceptRound → List (List IncomingLog) × End
accept_conns [] = ([], waits)
accept_conns (r ∷ rs) =
    let rest = accept_conns rs in
    elim r.accepted [
      | connected ip rounds ↦ ((read_lines (ip_of ip) rounds).0 ∷ rest.0, rest.1)
      | listener_closed ↦ ([], returned)
      | accept_failed ↦ if r.stopped then ([], returned) else rest
    ]

-- RunTCPServer, whether it can listen or not
unfoldable pub run_tcp_server : Bool → List AcceptRound → List (List IncomingLog) × End
run_tcp_server listens rs = if listens then accept_conns rs else ([], not_listening)
