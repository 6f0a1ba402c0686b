-- ===== src/Connection/Order.antt =====
-- base/network/tcpconnection.go writes the accepted messages in order and loses none on shutdown.
use gogame.Common.{
  ◌≢◌, ◌⊎◌, Bool, true, false, List, [], ◌∷◌, ◌++◌, ◌≡◌, refl, sym, ap, ◌∙◌, arith, Bool-cases, inl,
  inr, if◌then◌else◌,
}
use mathlib.Core.Path.{subst}
use gogame.Connection.{
  Conn, Link, Message, Writer, taking, parked, writing, finished, broken, Event, sends,
}
use gogame.Connection.{
  shuts, takes, writes, flushes, send, close_send, taken, signal, sending, shutting,
}
use gogame.Connection.{write_step, step, run, start, round}
use mathlib.Core.List.{append_assoc, append-nil}

-- What the writer has taken and not written.
abbrev pub pending : Writer → List Message
pending taking = []
pending parked = []
pending (writing bs closed) = bs
pending finished = []
pending (broken bs) = bs

-- A writer whose round was the last one, or that has finished, leaves a closed and empty connection.
-- One that is parked waits on an open and empty one.
abbrev pub IsLast : Writer → Conn → Type 0
IsLast taking c = Unit {0}
IsLast parked c = (c.closed ≡ false) × (c.bufs ≡ [])
IsLast (writing bs false) c = Unit {0}
IsLast (writing bs true) c = (c.closed ≡ true) × (c.bufs ≡ [])
IsLast finished c = (c.closed ≡ true) × (c.bufs ≡ [])
IsLast (broken bs) c = c.closed ≡ true

pub record IsOrdered (l : Link) : Type 0 where
  pub order : l.accepted ≡ l.written ++ (pending l.writer ++ l.conn.bufs)
  pub last : IsLast l.writer l.conn

regroup : (w p b : List Message) (bs : List Message) → (w ++ (p ++ b)) ++ bs ≡ w ++ (p ++ (b ++ bs))
regroup w p b bs = simp append_assoc

pending-signal : (w : Writer) → pending (signal w) ≡ pending w
pending-signal parked = refl
pending-signal _ = refl

-- A signal on an open connection, whatever it becomes.
signal-IsLast : (w : Writer) (c d : Conn) → c.closed ≡ false → IsLast w c → IsLast (signal w) d
signal-IsLast taking c d open_ h = tt
signal-IsLast parked c d open_ h = tt
signal-IsLast (writing p true) c d open_ h = absurd (let f = h.0 in cc)
signal-IsLast (writing p false) c d open_ h = tt
signal-IsLast finished c d open_ h = absurd (let f = h.0 in cc)
signal-IsLast (broken p) c d open_ h = absurd cc

sending-IsOrdered : (l : Link) (bs : List Message) → IsOrdered l → IsOrdered (sending l bs)
unfolding sending
sending-IsOrdered l bs h = record {
  order = elim (Bool-cases l.conn.closed) [
    | inl shut ↦ rw shut h.order
    | inr open_ ↦
        rw (open_, pending-signal l.writer)
          (ap (λ a. a ++ bs) h.order ∙ regroup l.written (pending l.writer) l.conn.bufs bs)
  ];
  last = elim (Bool-cases l.conn.closed) [
    | inl shut ↦ simp shut h.last
    | inr open_ ↦ rw open_ (signal-IsLast l.writer l.conn _ open_ h.last)
  ];
}

shutting-IsOrdered : (l : Link) → IsOrdered l → IsOrdered (shutting l)
unfolding shutting
shutting-IsOrdered l h = record {
  order = elim (Bool-cases l.conn.closed) [
    | inl shut ↦ rw shut h.order
    | inr open_ ↦ rw (open_, pending-signal l.writer) h.order
  ];
  last = elim (Bool-cases l.conn.closed) [
    | inl shut ↦ simp shut h.last
    | inr open_ ↦ rw open_ (signal-IsLast l.writer l.conn _ open_ h.last)
  ];
}

round-IsLast :
    (c : Conn) (bs : List Message) (closed : Bool)
    → c.closed ≡ closed
    → IsLast (writing bs closed) (record c { bufs = [] })
round-IsLast c bs true e = (e, refl)
round-IsLast c bs false e = tt

taken-IsOrdered :
    (l : Link) (bufs : List Message) (closed : Bool)
    → l.conn.closed ≡ closed
    → l.conn.bufs ≡ bufs
    → l.accepted ≡ l.written ++ bufs
    → IsOrdered (round l (taken l.conn bufs closed))
unfolding taken
taken-IsOrdered l [] false e empty order = record { order = rw empty order; last = (e, empty) }
taken-IsOrdered l bs closed e same order = record {
  order = order ∙ ap (λ b. l.written ++ b) (sym (append-nil bs));
  last = round-IsLast l.conn bs closed e;
}

-- A step of the writer, by its state.
module _ (l : Link) (h : IsOrdered l) where
  order_at : (w : Writer) → l.writer ≡ w → l.accepted ≡ l.written ++ (pending w ++ l.conn.bufs)
  order_at w e = rw e at h.order

  IsLast-at : (w : Writer) → l.writer ≡ w → IsLast w l.conn
  IsLast-at w e = subst (λ x. IsLast x l.conn) e h.last

  close_send-closed : (close_send l.conn).closed ≡ true
  unfolding close_send
  close_send-closed = ground arith

  close_send-bufs : (close_send l.conn).bufs ≡ l.conn.bufs
  unfolding close_send
  close_send-bufs = ground arith

  writes-IsLast :
      (b : Message) (bs : List Message) (c : Bool)
      → l.writer ≡ writing (b ∷ bs) c
      → IsLast (writing bs c) l.conn
  writes-IsLast b bs true e = IsLast-at (writing (b ∷ bs) true) e
  writes-IsLast b bs false e = tt

  flush-IsOrdered :
      (c : Bool)
      → l.writer ≡ writing [] c
      → IsOrdered (record l { writer = if c then finished else taking })
  flush-IsOrdered true e = record { order = order_at _ e; last = IsLast-at (writing [] true) e }
  flush-IsOrdered false e = record { order = order_at _ e; last = tt }

  write_step-IsOrdered : (w : Writer) (e : Event) → l.writer ≡ w → IsOrdered (write_step l w e)
  unfolding write_step
  write_step-IsOrdered taking takes w =
      taken-IsOrdered l l.conn.bufs l.conn.closed refl refl (order_at taking w)
  write_step-IsOrdered (writing (b ∷ bs) closed) (writes true) w = record {
    order = order_at _ w ∙ sym (append_assoc l.written (b ∷ []) (bs ++ l.conn.bufs));
    last = writes-IsLast b bs closed w;
  }
  write_step-IsOrdered (writing (b ∷ bs) closed) (writes false) w = record {
    order = rw close_send-bufs (order_at _ w);
    last = close_send-closed;
  }
  write_step-IsOrdered (writing [] closed) (flushes true) w = flush-IsOrdered closed w
  write_step-IsOrdered (writing [] closed) (flushes false) w = record {
    order = rw close_send-bufs (order_at _ w);
    last = close_send-closed;
  }
  write_step-IsOrdered _ _ w = h

pub step-IsOrdered : (l : Link) (e : Event) → IsOrdered l → IsOrdered (step l e)
unfolding step
step-IsOrdered l (sends bs) h = sending-IsOrdered l bs h
step-IsOrdered l shuts h = shutting-IsOrdered l h
step-IsOrdered l takes h = write_step-IsOrdered l h l.writer takes refl
step-IsOrdered l (writes done) h = write_step-IsOrdered l h l.writer (writes done) refl
step-IsOrdered l (flushes done) h = write_step-IsOrdered l h l.writer (flushes done) refl

pub run-IsOrdered : (l : Link) (es : List Event) → IsOrdered l → IsOrdered (run l es)
unfolding run
run-IsOrdered l [] h = h
run-IsOrdered l (e ∷ es) h = run-IsOrdered (step l e) es (step-IsOrdered l e h)

pub start-IsOrdered : IsOrdered start
unfolding start
start-IsOrdered = record { order = refl; last = tt }

send_refused : (c : Conn) → c.closed ≡ true → (bs : List Message) → send bs c ≡ (c, false)
unfolding send
send_refused c shut bs = ground arith

-- Under every interleaving of `Send`, `Shutdown` and the writer's steps, the messages written are,
-- in order, the first of those that `Send` accepted. Once the writer has returned because the
-- connection was closed they are all of them, and `Send` accepts no more.
pub written_in_order :
    (es : List Event)
    → ((rest : List Message) × ((run start es).accepted ≡ (run start es).written ++ rest))
      × (((run start es).writer ≢ finished)
          ⊎ (((run start es).written ≡ (run start es).accepted)
              × ((bs : List Message) → send bs (run start es).conn ≡ ((run start es).conn, false))))
written_in_order es = ((pending l.writer ++ l.conn.bufs, h.order), done l.writer refl)
  where
    l : Link
    l = run start es

    h : IsOrdered l
    h = run-IsOrdered start es start-IsOrdered

    done :
        (w : Writer)
        → l.writer ≡ w
        → (l.writer ≢ finished)
          ⊎ ((l.written ≡ l.accepted) × ((bs : List Message) → send bs l.conn ≡ (l.conn, false)))
    done taking e = inl (λ f. cc)
    done parked e = inl (λ f. cc)
    done (writing bs c) e = inl (λ f. cc)
    done (broken bs) e = inl (λ f. cc)
    done finished e =
        let (shut, empty) = IsLast-at l h finished e in
        let all = rw (empty, append-nil) at (order_at l h finished e) in
        inr (sym all, send_refused l.conn shut)
