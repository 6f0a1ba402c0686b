-- ===== src/TcpClient.antt =====
-- The client of base/network/tcpclient.go: the loop that dials and serves, and `Close`. Critical
-- sections under the mutex are atomic steps.
-- A connection is a number, by the order in which they are dialled. Delays are seconds. A state that
-- the client notifies is lost when nobody waits for it.
pub mod Served
pub mod Kept
mod Tests
use gogame.Common.{
  ℕ, zero, suc, ◌*◌, Bool, true, false, List, [], ◌∷◌, ◌++◌, Option, none, some, ◌==◌, ltb,
  if◌then◌else◌,
}

pub data ClientError : Type 0 where
  client_closed dial_failed : ClientError

-- `DialAndServe`: not called; dials, after the delay of the last failure; has a connection that the
-- client does not know yet; serves it; `serve` has returned; has returned; or has panicked.
pub data Loop : Type 0 where
  waiting panicked : Loop
  dialling dialled serving served : ℕ → Loop
  returned : ClientError → Loop

pub record TcpClient : Type 0 where
  pub retry : Bool
  pub closed : Bool
  pub connection : Option ℕ
  pub loop : Loop
  pub socket_closed : ℕ → Bool
  pub next : ℕ
  pub notified : List Bool

unfoldable pub new_tcp_client : TcpClient
new_tcp_client = record {
  retry = false;
  closed = false;
  connection = none;
  loop = waiting;
  socket_closed = λ c. false;
  next = 0;
  notified = [];
}

abbrev pub enable_retry : TcpClient → TcpClient
enable_retry s = record s { retry = true }

abbrev pub disable_retry : TcpClient → TcpClient
disable_retry s = record s { retry = false }

unfoldable pub notify_connect_state : (is_waited_for state : Bool) → TcpClient → TcpClient
notify_connect_state true state s = record s { notified = s.notified ++ (state ∷ []) }
notify_connect_state false state s = s

-- What `dialTCP` gives: with a timeout, a dial that fails leaves a nil connection, and the assertion
-- on its type panics.
pub data Dialled : Type 0 where
  connects fails crashes : Dialled

abbrev pub dial_tcp : (has_timeout is_up : Bool) → Dialled
dial_tcp has_timeout true = connects
dial_tcp true false = crashes
dial_tcp false false = fails

-- The delay after one more failure.
unfoldable pub next_delay : ℕ → ℕ
next_delay zero = 1
next_delay (suc d) = let twice = suc d * 2 in if ltb 60 twice then 60 else twice

abbrev pub close_socket : ℕ → (ℕ → Bool) → ℕ → Bool
close_socket c sockets i = if c == i then true else sockets i

unfoldable pub new_connection : ℕ → TcpClient → TcpClient × Option ClientError
new_connection c s =
    if s.closed then (s, some client_closed) else (record s { connection = some c }, none)

abbrev pub returns : ClientError → TcpClient → TcpClient
returns e s = record s { loop = returned e }

-- The client knows the connection; or the loop returns, and the connection is left as it is.
abbrev pub joined : Bool → ℕ → TcpClient × Option ClientError → TcpClient
joined waits c (s, none) = notify_connect_state waits true (record s { loop = serving c })
joined waits c (s, some e) = notify_connect_state waits false (returns e s)

unfoldable pub after_dial : Bool → ℕ → Dialled → TcpClient → TcpClient
unfolding next_delay notify_connect_state
after_dial waits d connects s = record s { loop = dialled s.next; next = suc s.next }
after_dial waits d crashes s = record s { loop = panicked }
after_dial waits d fails s =
    if s.closed
    then notify_connect_state waits false (returns client_closed s)
    else if s.retry
    then record s { loop = dialling (next_delay d) }
    else notify_connect_state waits false (returns dial_failed s)

-- What `serveConnection` does once `serve` has returned.
unfoldable pub serve_connection : TcpClient → TcpClient
serve_connection s =
    if s.closed then returns client_closed s else record s { connection = none; loop = dialling 0 }

-- A step of `DialAndServe`, where the dial has a timeout or not, the other side is up or not, and
-- somebody waits for the state or not. `serve` closes the socket when it returns.
unfoldable pub loop_step : (has_timeout is_up waits : Bool) → Loop → TcpClient → TcpClient
unfolding after_dial new_connection notify_connect_state serve_connection
loop_step has_timeout is_up waits waiting s =
    if s.closed then returns client_closed s else record s { loop = dialling 0 }
loop_step has_timeout is_up waits (dialling d) s = after_dial waits d (dial_tcp has_timeout is_up) s
loop_step has_timeout is_up waits (dialled c) s = joined waits c (new_connection c s)
loop_step has_timeout is_up waits (serving c) s = record s {
  loop = served c;
  socket_closed = close_socket c s.socket_closed;
}
loop_step has_timeout is_up waits (served c) s = serve_connection s
loop_step has_timeout is_up waits panicked s = s
loop_step has_timeout is_up waits (returned e) s = s

unfoldable pub get_connection : TcpClient → Option ℕ
get_connection s = if s.closed then none else s.connection

abbrev pub close_of : Option ℕ → TcpClient → TcpClient
close_of none s = record s { closed = true }
close_of (some c) s = record s {
  closed = true;
  connection = none;
  socket_closed = close_socket c s.socket_closed;
}

unfoldable pub close : TcpClient → TcpClient
close s = if s.closed then s else close_of s.connection s

pub data Event : Type 0 where
  proceeds : (has_timeout is_up waits : Bool) → Event
  retries : Bool → Event
  closes : Event

unfoldable pub step : TcpClient → Event → TcpClient
unfolding loop_step close
step s (proceeds has_timeout is_up waits) = loop_step has_timeout is_up waits s.loop s
step s (retries true) = enable_retry s
step s (retries false) = disable_retry s
step s closes = close s

unfoldable pub run : TcpClient → List Event → TcpClient
unfolding step
run s [] = s
run s (e ∷ es) = run (step s e) es
