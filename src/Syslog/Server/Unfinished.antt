-- ===== src/Syslog/Server/Unfinished.antt =====
-- The last line of a connection.
use Prim.Native.Char.{code}
use Prim.Native.String
use Prim.Native.String.append
use ot_collector.Prelude.{
  ◌≡◌, refl, ap, String, Bool, true, false, not, ◌&&◌, List, [], ◌∷◌, ◌==◌, if◌then◌else◌,
  both_true, refuted,
}
use ot_collector.Syslog.Server.{lines_from, handle_lines, handle_tcp_conn}

-- The text has no newline.
unfoldable pub is_one_line : String → Bool
is_one_line String.[] = true
is_one_line (String.◌∷◌ c s) = not (code c == 10) && is_one_line s

both_ways :
    (b : Bool) {x y u v : List String} → x ≡ u → y ≡ v → (if b then x else y) ≡ (if b then u else v)
both_ways true p q = p
both_ways false p q = q

lines_from-one : (line rest : String) → is_one_line rest ≡ true → lines_from line rest ≡ []
unfolding lines_from is_one_line
lines_from-one line String.[] h = refl
lines_from-one line (String.◌∷◌ c s) h =
    let (first, more) = both_true _ _ h in
    rw (refuted (code c == 10) first) (lines_from-one (String.◌++◌ line (String.◌∷◌ c "")) s more)

lines_from-append :
    (line text rest : String)
    → is_one_line rest ≡ true
    → lines_from line (String.◌++◌ text rest) ≡ lines_from line text
unfolding lines_from
lines_from-append line String.[] rest h = rw (append.nil rest) (lines_from-one line rest h)
lines_from-append line (String.◌∷◌ c s) rest h = rw (append.cons c s rest) (
    both_ways (code c == 10) (ap (λ (ls : List String). line ∷ ls) (lines_from-append "" s rest h))
      (lines_from-append (String.◌++◌ line (String.◌∷◌ c "")) s rest h))

-- What a client sends after its last newline, before it closes the connection, is never handed on: the
-- messages of a connection are the same without it.
pub handle_tcp_conn-unfinished :
    (ip text rest : String)
    → is_one_line rest ≡ true
    → handle_tcp_conn ip (String.◌++◌ text rest) ≡ handle_tcp_conn ip text
unfolding handle_tcp_conn
handle_tcp_conn-unfinished ip text rest h = ap (handle_lines ip) (lines_from-append "" text rest h)
