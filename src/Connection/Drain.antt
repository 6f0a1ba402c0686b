-- ===== src/Connection/Drain.antt =====
-- After `Shutdown`, the writer of base/network/tcpconnection.go reaches its end.
use gogame.Common.{
  Bool, true, false, List, [], ◌∷◌, ◌++◌, ◌≡◌, ◌⊎◌, inl, inr, refl, ap, sym, ◌∙◌, some,
  if◌then◌else◌, All, All-append, arith,
}
use gogame.Connection.{
  Conn, Link, Message, Writer, taking, parked, writing, finished, broken, Event, takes, writes,
  shuts,
}
use gogame.Connection.{flushes, taken, write_step, step, run, start, round, shutting, shutdown}
use gogame.Connection.Order.{
  IsLast, IsOrdered, pending, step-IsOrdered, run-IsOrdered, start-IsOrdered,
}
use mathlib.Core.Path.{subst}
use mathlib.Core.List.{append-nil, append_assoc}

-- The steps of one round: each write succeeds, and then the flush.
abbrev round_of : List Message → List Event
round_of [] = flushes true ∷ []
round_of (b ∷ bs) = writes true ∷ round_of bs

run-append : (l : Link) (es fs : List Event) → run l (es ++ fs) ≡ run (run l es) fs
unfolding run
run-append l [] fs = refl
run-append l (e ∷ es) fs = run-append (step l e) es fs

-- A whole round, from the state in which its buffers have been taken.
round_run :
    (l : Link) (bs : List Message) (closed : Bool)
    → run (record l { writer = writing bs closed }) (round_of bs)
      ≡ record l { written = l.written ++ bs; writer = if closed then finished else taking }
unfolding run step write_step
round_run l [] closed =
    ap (λ w. record l { written = w; writer = if closed then finished else taking })
      (sym (append-nil l.written))
round_run l (b ∷ bs) closed =
    round_run (record l { written = l.written ++ (b ∷ []) }) bs closed
    ∙ ap (λ w. record l { written = w; writer = if closed then finished else taking })
        (append_assoc l.written (b ∷ []) bs)

taken_closed :
    (c : Conn) (bs : List Message) → taken c bs true ≡ some (record c { bufs = [] }, bs, true)
unfolding taken
taken_closed c [] = refl
taken_closed c _ = refl

last_take :
    (l : Link)
    → l.writer ≡ taking
    → l.conn.closed ≡ true
    → step l takes
      ≡ record l { conn = record (l.conn) { bufs = [] }; writer = writing l.conn.bufs true }
unfolding step write_step
last_take l w shut =
    ap (λ x. write_step l x takes) w
    ∙ ap (λ b. round l (taken l.conn l.conn.bufs b)) shut
    ∙ ap (round l) (taken_closed l.conn l.conn.bufs)

last_round :
    (l : Link)
    → l.writer ≡ taking
    → l.conn.closed ≡ true
    → (run l (takes ∷ round_of l.conn.bufs)).writer ≡ finished
unfolding run
last_round l w shut =
    ap (λ x. (run x (round_of l.conn.bufs)).writer) (last_take l w shut)
    ∙ ap (λ x. x.writer)
        (round_run (record l { conn = record (l.conn) { bufs = [] } }) l.conn.bufs true)

-- The writer's steps to its end, from each state.
finishing : Writer → List Message → List Event
finishing parked bufs = []
finishing taking bufs = takes ∷ round_of bufs
finishing (writing bs true) bufs = round_of bs
finishing (writing bs false) bufs = round_of bs ++ (takes ∷ round_of bufs)
finishing finished bufs = []
finishing (broken bs) bufs = []

finishing-finished :
    (l : Link) (w : Writer)
    → l.writer ≡ w
    → IsLast w l.conn
    → l.conn.closed ≡ true
    → ((lost : List Message) × (l.writer ≡ broken lost))
      ⊎ ((run l (finishing w l.conn.bufs)).writer ≡ finished)
unfolding finishing
finishing-finished l parked w open_ shut = absurd (let f = open_.0 in cc)
finishing-finished l taking w last shut = inr (last_round l w shut)
finishing-finished l (writing bs true) w last shut = inr (
    ap (λ x. (run (record l { writer = x }) (round_of bs)).writer) w
    ∙ ap (λ x. x.writer) (round_run l bs true))
finishing-finished l (writing bs false) w last shut =
    let next_round : List Event = takes ∷ round_of l.conn.bufs in
    let l' : Link = record l { written = l.written ++ bs; writer = taking } in
    inr (
      ap (λ x. (run (record l { writer = x }) (round_of bs ++ next_round)).writer) w
      ∙ ap (λ x. x.writer)
          (run-append (record l { writer = writing bs false }) (round_of bs) next_round)
      ∙ ap (λ x. (run x next_round).writer) (round_run l bs false)
      ∙ last_round l' refl shut)
finishing-finished l finished w last shut = inr (unfold run in w)
finishing-finished l (broken bs) w last shut = inl (bs, w)

-- The writer's own steps, each of them without an error.
abbrev pub IsWriterStep : Event → Type 0
IsWriterStep takes = Unit {0}
IsWriterStep (writes true) = Unit {0}
IsWriterStep (flushes true) = Unit {0}
IsWriterStep _ = ⊥

round_of-All : (bs : List Message) → All IsWriterStep (round_of bs)
round_of-All [] = (tt, tt)
round_of-All (b ∷ bs) = (tt, round_of-All bs)

finishing-All : (w : Writer) (bufs : List Message) → All IsWriterStep (finishing w bufs)
unfolding finishing
finishing-All taking bufs = (tt, round_of-All bufs)
finishing-All parked bufs = tt
finishing-All (writing bs true) bufs = round_of-All bs
finishing-All (writing bs false) bufs =
    All-append IsWriterStep (round_of bs) (takes ∷ round_of bufs) (round_of-All bs)
      (tt, round_of-All bufs)
finishing-All finished bufs = tt
finishing-All (broken bs) bufs = tt

shut-closed : (l : Link) → (step l shuts).conn.closed ≡ true
unfolding step shutting shutdown
shut-closed l = ground arith

finished-written : (l : Link) → IsOrdered l → l.writer ≡ finished → l.written ≡ l.accepted
finished-written l h e =
    let last = subst (λ w. IsLast w l.conn) e h.last in
    let order : l.accepted ≡ l.written ++ (pending finished ++ l.conn.bufs) =
      subst (λ w. l.accepted ≡ l.written ++ (pending w ++ l.conn.bufs)) e h.order in
    sym (order ∙ ap (λ b. l.written ++ b) last.1 ∙ append-nil l.written)

-- After any history and `Shutdown`, the writer has either returned on an error already; or finitely
-- many steps of the writer alone, without an error, lead to its return, with every message written
-- that `Send` had accepted.
pub shutdown_drains :
    (es : List Event)
    → let l = step (run start es) shuts in
      ((lost : List Message) × (l.writer ≡ broken lost))
      ⊎ ((fs : List Event) × All IsWriterStep fs
          × ((run l fs).writer ≡ finished)
          × ((run l fs).written ≡ (run l fs).accepted))
shutdown_drains es =
    let l : Link = step (run start es) shuts in
    let h : IsOrdered l =
      step-IsOrdered (run start es) shuts (run-IsOrdered start es start-IsOrdered) in
    elim (finishing-finished l l.writer refl h.last (shut-closed (run start es))) [
      | inl lost ↦ inl lost
      | inr ends ↦
          let fs : List Event = finishing l.writer l.conn.bufs in
          inr (
            fs,
            finishing-All l.writer l.conn.bufs,
            ends,
            finished-written (run l fs) (run-IsOrdered l fs h) ends,
          )
    ]
