-- ===== src/Syslog/Server/Loops/Begins.antt =====
-- What the servers hand on of what comes, stopped or not.
use ot_collector.Prelude.{
  ◌≡◌, ◌⊎◌, refl, ap, String, Bool, true, false, ◌||◌, Option, none, some, List, [], ◌∷◌, ◌++◌,
  str_eq, Bool-cases, Option-cases, inl, inr,
}
use ot_collector.GoText.{trim_space}
use ot_collector.Syslog.Server.{IncomingLog, handle_lines, lines_from, handle_tcp_conn, udp_message}
use ot_collector.Syslog.Server.Loops.{
  returned, Received, datagram, closed, read_failed, UdpRound, ip_of, read_datagrams, LineRound,
  read_lines,
}

-- These come first among all of them, and some are left out only by a stop.
abbrev pub IsBeginning : List IncomingLog → Bool → List IncomingLog → Type 0
IsBeginning all stopped out =
    (more : List IncomingLog) × (all ≡ out ++ more) × ((more ≡ []) ⊎ (stopped ≡ true))

one_more :
    (x : IncomingLog) (all : List IncomingLog) (stopped : Bool) (out : List IncomingLog)
    → IsBeginning all stopped out
    → IsBeginning (x ∷ all) stopped (x ∷ out)
one_more x all stopped out (more, e, why) = (more, ap (λ l. x ∷ l) e, why)

later_stop :
    (b : Bool) (all : List IncomingLog) (stopped : Bool) (out : List IncomingLog)
    → IsBeginning all stopped out
    → IsBeginning all (b || stopped) out
later_stop true all stopped out (more, e, why) = (more, e, inr refl)
later_stop false all stopped out h = h

-- The lines that a connection gives before an error.
unfoldable pub lines_of : List LineRound → List String
lines_of [] = []
lines_of (r ∷ rs) = elim r.line [ none ↦ [] | some line ↦ line ∷ lines_of rs ]

unfoldable pub some_stop : List LineRound → Bool
some_stop [] = false
some_stop (r ∷ rs) = (r.stopped_before || r.stopped_sending) || some_stop rs

module _ (ip : String) where
  -- Whenever the collector is stopped, what a TCP connection hands on is a beginning of its
  -- messages, in the order of its lines; without a stop it is all of them.
  pub read_lines-IsBeginning :
      (rs : List LineRound)
      → IsBeginning (handle_lines ip (lines_of rs)) (some_stop rs) (read_lines ip rs).0
  unfolding read_lines lines_of some_stop handle_lines
  read_lines-IsBeginning [] = ([], refl, inl refl)
  read_lines-IsBeginning (r ∷ rs) = elim (Bool-cases r.stopped_before) [
    | inl e ↦ rw e (handle_lines ip (lines_of (r ∷ rs)), refl, inr refl)
    | inr e ↦ elim (Option-cases r.line) [
      | inl failed ↦ rw (e, failed) ([], refl, inl refl)
      | inr (line, came) ↦ elim (Bool-cases (str_eq (trim_space line) "")) [
        | inl blank ↦
            rw (e, came, blank)
              (later_stop r.stopped_sending _ (some_stop rs) _ (read_lines-IsBeginning rs))
        | inr full ↦ elim (Bool-cases r.stopped_sending) [
          | inl stop ↦ rw (e, came, full, stop) (_, refl, inr refl)
          | inr sent ↦
              rw (e, came, full, sent) (one_more _ _ (some_stop rs) _ (read_lines-IsBeginning rs))
        ]
      ]
    ]
  ]

  abbrev unstopped : Option String → LineRound
  unstopped line = record { stopped_before = false; line = line; stopped_sending = false }

  -- A connection that is never stopped and closes after these lines.
  abbrev pub undisturbed : List String → List LineRound
  undisturbed [] = unstopped none ∷ []
  undisturbed (line ∷ ls) = unstopped (some line) ∷ undisturbed ls

  read_lines-undisturbed :
      (ls : List String) → read_lines ip (undisturbed ls) ≡ (handle_lines ip ls, returned)
  unfolding read_lines handle_lines
  read_lines-undisturbed [] = refl
  read_lines-undisturbed (line ∷ ls) = elim (Bool-cases (str_eq (trim_space line) "")) [
    | inl blank ↦ rw blank (read_lines-undisturbed ls)
    | inr full ↦ rw (full, read_lines-undisturbed ls)
  ]

  -- It hands on what the rest of the development takes a connection to hand on.
  read_lines-handle_tcp_conn :
      (text : String)
      → read_lines ip (undisturbed (lines_from "" text)) ≡ (handle_tcp_conn ip text, returned)
  unfolding handle_tcp_conn
  read_lines-handle_tcp_conn text = read_lines-undisturbed (lines_from "" text)

-- The messages of the datagrams that come before the socket is closed.
unfoldable pub messages_of : List UdpRound → List IncomingLog
messages_of [] = []
messages_of (r ∷ rs) = elim r.received [
  | datagram ip text ↦ udp_message (ip_of ip) text ∷ messages_of rs
  | closed ↦ []
  | read_failed ↦ messages_of rs
]

unfoldable pub some_udp_stop : List UdpRound → Bool
some_udp_stop [] = false
some_udp_stop (r ∷ rs) = r.stopped || some_udp_stop rs

abbrev UdpBeginning : List UdpRound → Type 0
UdpBeginning rs = IsBeginning (messages_of rs) (some_udp_stop rs) (read_datagrams rs).0

udp_round :
    (r : Received) (stopped : Bool) (rs : List UdpRound)
    → UdpBeginning rs
    → UdpBeginning (record { received = r; stopped = stopped } ∷ rs)
unfolding messages_of some_udp_stop read_datagrams
udp_round r true rs h = (_, refl, inr refl)
udp_round (datagram ip text) false rs h = one_more _ _ (some_udp_stop rs) _ h
udp_round closed false rs h = ([], refl, inl refl)
udp_round read_failed false rs h = h

-- The same of the datagrams of RunUDPServer: a read that fails loses none, and without a stop all
-- are handed on.
read_datagrams-IsBeginning : (rs : List UdpRound) → UdpBeginning rs
unfolding messages_of some_udp_stop read_datagrams
read_datagrams-IsBeginning [] = ([], refl, inl refl)
read_datagrams-IsBeginning (r ∷ rs) =
    udp_round r.received r.stopped rs (read_datagrams-IsBeginning rs)
