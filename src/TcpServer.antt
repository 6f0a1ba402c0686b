-- ===== src/TcpServer.antt =====
-- The server of base/network/tcpserver.go: its listener, its set of connections, the loop that
-- accepts, and `Close`. Critical sections under the mutex are atomic steps.
-- A connection is a number, by the order in which they are accepted. A listener that is closed
-- accepts nothing more. Delays are milliseconds.
pub mod Tracked
pub mod Closed
mod Tests
use gogame.Common.{
  ℕ, zero, suc, ◌*◌, Bool, true, false, List, [], ◌∷◌, Option, none, some, ◌==◌, ltb, if◌then◌else◌,
}

pub data ServerError : Type 0 where
  server_closed listen_failed accept_failed : ServerError

-- `ListenAndServe`: not called; has a listener that the server does not know yet; waits to accept,
-- with the delay of the last failure; has accepted a connection that the server does not know yet; or
-- has returned.
pub data Loop : Type 0 where
  waiting opened : Loop
  accepting accepted : ℕ → Loop
  returned : ServerError → Loop

-- A connection: not there yet; accepted; served by its goroutine; `serve` has returned; and the
-- goroutine has returned. Or it was refused.
pub data Phase : Type 0 where
  unborn pending serving ended gone refused : Phase

pub record TcpServer : Type 0 where
  pub listener : Bool
  pub closed : Bool
  pub connections : List ℕ
  pub loop : Loop
  pub phase : ℕ → Phase
  pub socket_closed : ℕ → Bool
  pub next : ℕ

unfoldable pub new_tcp_server : TcpServer
new_tcp_server = record {
  listener = false;
  closed = false;
  connections = [];
  loop = waiting;
  phase = λ c. unborn;
  socket_closed = λ c. false;
  next = 0;
}

abbrev pub put {ℓ} : {A : Type ℓ} → (at : ℕ) (value : A) → (ℕ → A) → ℕ → A
put at value f i = if at == i then value else f i

-- `delete(this.connections, connection)`
unfoldable pub without : ℕ → List ℕ → List ℕ
without c [] = []
without c (x ∷ xs) = let rest = without c xs in if x == c then rest else x ∷ rest

unfoldable pub new_listener : TcpServer → TcpServer × Option ServerError
new_listener s =
    if s.closed
    then (s, some server_closed)
    else (record s { listener = true; connections = [] }, none)

unfoldable pub new_connection : ℕ → TcpServer → TcpServer × Option ServerError
new_connection c s =
    if s.closed
    then (s, some server_closed)
    else (record s { connections = c ∷ s.connections }, none)

-- What `serveConnection` does once `serve` has returned.
unfoldable pub serve_connection : ℕ → TcpServer → TcpServer
unfolding without
serve_connection c s = if s.closed then s else record s { connections = without c s.connections }

-- `for connection := range this.connections`
unfoldable pub close_all : List ℕ → (ℕ → Bool) → ℕ → Bool
close_all [] sockets = sockets
close_all (c ∷ cs) sockets = close_all cs (put c true sockets)

unfoldable pub close : TcpServer → TcpServer
unfolding close_all
close s =
    if s.closed
    then s
    else if s.listener
    then record s {
      closed = true;
      listener = false;
      socket_closed = close_all s.connections s.socket_closed;
      connections = [];
    }
    else record s { closed = true }

-- The delay after one more failure that is temporary.
unfoldable pub next_delay : ℕ → ℕ
next_delay zero = 5
next_delay (suc d) = let twice = suc d * 2 in if ltb 1000 twice then 1000 else twice

abbrev pub with_loop : Loop → TcpServer → TcpServer
with_loop l s = record s { loop = l }

-- The outcome of `AcceptTCP`.
pub data Accept : Type 0 where
  connects : Accept
  fails : (is_temporary : Bool) → Accept

unfoldable pub accept : Accept → ℕ → TcpServer → TcpServer
unfolding next_delay
accept connects d s =
    if s.listener
    then record s { loop = accepted s.next; phase = put s.next pending s.phase; next = suc s.next }
    else s
accept (fails is_temporary) d s =
    if s.closed
    then with_loop (returned server_closed) s
    else if is_temporary
    then with_loop (accepting (next_delay d)) s
    else with_loop (returned accept_failed) s

abbrev pub registered : TcpServer × Option ServerError → TcpServer
registered (s, none) = with_loop (accepting 0) s
registered (s, some e) = with_loop (returned e) s

-- The server knows the connection, whose goroutine is started, or the connection is closed.
abbrev pub joined : ℕ → TcpServer × Option ServerError → TcpServer
joined c (s, none) = record s { loop = accepting 0; phase = put c serving s.phase }
joined c (s, some e) = record s {
  loop = returned e;
  phase = put c refused s.phase;
  socket_closed = put c true s.socket_closed;
}

-- A step of `ListenAndServe`, with what the listener gives it.
unfoldable pub loop_step : Bool → Accept → Loop → TcpServer → TcpServer
unfolding new_listener new_connection accept
loop_step listens a waiting s =
    if s.closed
    then with_loop (returned server_closed) s
    else if listens
    then with_loop opened s
    else with_loop (returned listen_failed) s
loop_step listens a opened s = registered (new_listener s)
loop_step listens a (accepting d) s = accept a d s
loop_step listens a (accepted c) s = joined c (new_connection c s)
loop_step listens a (returned e) s = s

-- A step of the goroutine of a connection: `serve` returns, which closes the socket, or what follows.
unfoldable pub serve_step : ℕ → Phase → TcpServer → TcpServer
unfolding serve_connection
serve_step c serving s = record s {
  phase = put c ended s.phase;
  socket_closed = put c true s.socket_closed;
}
serve_step c ended s = let s' = serve_connection c s in record s' { phase = put c gone s'.phase }
serve_step c _ s = s

pub data Event : Type 0 where
  listens : (listening : Bool) → Accept → Event
  serves : (connection : ℕ) → Event
  closes : Event

unfoldable pub step : TcpServer → Event → TcpServer
unfolding loop_step serve_step close
step s (listens listening a) = loop_step listening a s.loop s
step s (serves c) = serve_step c (s.phase c) s
step s closes = close s

unfoldable pub run : TcpServer → List Event → TcpServer
unfolding step
run s [] = s
run s (e ∷ es) = run (step s e) es
