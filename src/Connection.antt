-- ===== src/Connection.antt =====
-- The send side of base/network/tcpconnection.go: `Send`, `Shutdown` and the goroutine
-- `backgroundWrite`, whose critical sections are atomic steps under the connection's mutex.
-- The writer waits on the condition variable, parked, until `Send` or `Shutdown` signals; the signal of
-- `Send`, which follows its critical section, is taken together with it.
-- A message is a list of bytes. `Link` adds to a connection its writer goroutine and two records of
-- the past: the messages that `Send` accepted, and those that the codec has written.
mod Tests
pub mod Order
pub mod Drain
use gogame.Common.{ℕ, Bool, true, false, List, [], ◌∷◌, ◌++◌, Option, none, some, if◌then◌else◌}

abbrev pub Message : Type 0
Message = List ℕ

pub record Conn : Type 0 where
  pub bufs : List Message
  pub closed : Bool

unfoldable pub new_connection : Conn
new_connection = record { bufs = []; closed = false }

unfoldable pub send : List Message → Conn → Conn × Bool
send bs c = if c.closed then (c, false) else (record c { bufs = c.bufs ++ bs }, true)

unfoldable pub stop_background_write : Conn → Conn
stop_background_write c = if c.closed then c else record c { closed = true }

unfoldable pub close_send : Conn → Conn
close_send c = if c.closed then c else record c { closed = true }

unfoldable pub shutdown : Conn → Conn
unfolding stop_background_write
shutdown c = stop_background_write c

-- The locked part of a round of `backgroundWrite`, by the buffers and the closed flag: it waits
-- where the connection is open and has nothing to send (`none`), and otherwise takes both.
pub taken : Conn → List Message → Bool → Option (Conn × List Message × Bool)
taken c [] false = none
taken c bs closed = some (record c { bufs = [] }, bs, closed)

unfoldable pub take_round : Conn → Option (Conn × List Message × Bool)
unfolding taken
take_round c = taken c c.bufs c.closed

-- The goroutine: about to take a round, or to look again whether it has to wait; parked in
-- `cond.Wait`; writing the rest of a round, with the flag that it took;
-- returned because it was closed; or returned on an error, with the rest of its round lost.
pub data Writer : Type 0 where
  taking : Writer
  parked : Writer
  writing : List Message → Bool → Writer
  finished : Writer
  broken : List Message → Writer

pub record Link : Type 0 where
  pub conn : Conn
  pub writer : Writer
  pub accepted : List Message
  pub written : List Message

-- What can happen next: a call of `Send` or `Shutdown` by anyone, or a step of the writer, where
-- the outcome of `codec.Write` and `w.Flush` is given.
pub data Event : Type 0 where
  sends : List Message → Event
  shuts : Event
  takes : Event
  writes : Bool → Event
  flushes : Bool → Event

-- `cond.Signal`: a goroutine that is not parked misses it.
abbrev pub signal : Writer → Writer
signal parked = taking
signal w = w

unfoldable pub sending : Link → List Message → Link
unfolding send
sending l bs =
    let (c, accepts) = send bs l.conn in
    record l {
      conn = c;
      accepted = if accepts then l.accepted ++ bs else l.accepted;
      writer = if accepts then signal l.writer else l.writer;
    }

-- `Shutdown` signals if it is the one that closes the connection.
unfoldable pub shutting : Link → Link
unfolding shutdown
shutting l = record l {
  conn = shutdown l.conn;
  writer = if l.conn.closed then l.writer else signal l.writer;
}

abbrev pub round : Link → Option (Conn × List Message × Bool) → Link
round l none = record l { writer = parked }
round l (some (c, bs, closed)) = record l { conn = c; writer = writing bs closed }

-- A step of the writer that its state does not allow changes nothing.
unfoldable pub write_step : Link → Writer → Event → Link
unfolding take_round close_send
write_step l taking takes = round l (take_round l.conn)
write_step l (writing (b ∷ bs) closed) (writes true) = record l {
  written = l.written ++ (b ∷ []);
  writer = writing bs closed;
}
write_step l (writing (b ∷ bs) closed) (writes false) = record l {
  conn = close_send l.conn;
  writer = broken (b ∷ bs);
}
write_step l (writing [] closed) (flushes true) = record l {
  writer = if closed then finished else taking;
}
write_step l (writing [] closed) (flushes false) = record l {
  conn = close_send l.conn;
  writer = broken [];
}
write_step l _ _ = l

unfoldable pub step : Link → Event → Link
unfolding sending shutting write_step
step l (sends bs) = sending l bs
step l shuts = shutting l
step l takes = write_step l l.writer takes
step l (writes done) = write_step l l.writer (writes done)
step l (flushes done) = write_step l l.writer (flushes done)

unfoldable pub run : Link → List Event → Link
run l [] = l
run l (e ∷ es) = run (step l e) es

-- `startBackgroundWrite` on a new connection.
unfoldable pub start : Link
unfolding new_connection
start = record { conn = new_connection; writer = taking; accepted = []; written = [] }
