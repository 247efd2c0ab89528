-- ===== src/Syslog/Server.antt =====
-- internal/syslog/tcp.go and udp.go: what the servers hand on of what they read. A connection is the
-- text that comes until its end, as the file is to ReadString: a line with its newline, or at the
-- end what is left with an error.
pub mod Unfinished
pub mod Loops
use Prim.Native.Char.{code}
use Prim.Native.String
use ot_collector.Prelude.{String, List, [], ◌∷◌, ◌==◌, str_eq, if◌then◌else◌}
use ot_collector.GoText.{trim_space}

pub record IncomingLog : Type 0 where
  pub raw : String
  pub source_ip : String
  pub transport : String

-- What ReadString gives until its error: the lines that end in a newline, less that newline.
unfoldable pub lines_from : String → String → List String
lines_from line String.[] = []
lines_from line (String.◌∷◌ c s) =
    let rest = lines_from "" s in
    let longer = lines_from (String.◌++◌ line (String.◌∷◌ c "")) s in
    if code c == 10 then line ∷ rest else longer

-- The loop of handleTCPConn.
unfoldable pub handle_lines : String → List String → List IncomingLog
handle_lines ip [] = []
handle_lines ip (line ∷ rest) =
    let raw = trim_space line in
    let later = handle_lines ip rest in
    if str_eq raw "" then later else record { raw = raw; source_ip = ip; transport = "tcp" } ∷ later

-- handleTCPConn
unfoldable pub handle_tcp_conn : String → String → List IncomingLog
handle_tcp_conn ip text = handle_lines ip (lines_from "" text)

-- The message of RunUDPServer for a datagram.
unfoldable pub udp_message : String → String → IncomingLog
udp_message ip text = record { raw = text; source_ip = ip; transport = "udp" }
