-- ===== src/Connection/Tests.antt =====
-- The send side of base/network/tcpconnection.go on concrete histories.
use gogame.Common.{◌≡◌, ◌≢◌, ◌⊎◌, refl, true, false, List, [], ◌∷◌, ◌++◌, All}
use gogame.Connection.{Message, Event, sends, shuts, takes, writes, flushes, finished, broken}
use gogame.Connection.{run, start, step, send, taken}
use gogame.Connection.Order.{written_in_order}
use gogame.Connection.Drain.{IsWriterStep, shutdown_drains}

-- Two messages are sent, and a third while the first round is being written; then `Shutdown`.
abbrev history : List Event
history =
    sends ((1 ∷ []) ∷ (2 ∷ []) ∷ [])
    ∷ takes
    ∷ writes true
    ∷ sends ((3 ∷ []) ∷ [])
    ∷ shuts
    ∷ sends ((4 ∷ []) ∷ [])
    ∷ writes true
    ∷ flushes true
    ∷ []

history_written : (run start history).written ≡ (1 ∷ []) ∷ (2 ∷ []) ∷ []
unfolding run start step
history_written = refl

history_accepted : (run start history).accepted ≡ (1 ∷ []) ∷ (2 ∷ []) ∷ (3 ∷ []) ∷ []
unfolding run start step
history_accepted = refl

-- A writer that is parked on an empty connection is woken by `Shutdown`.
parked_then_shut : (run start (takes ∷ shuts ∷ takes ∷ flushes true ∷ [])).writer ≡ finished
unfolding run start step taken
parked_then_shut = refl

written_in_order_example :
    ((rest : List Message) × ((run start history).accepted ≡ (run start history).written ++ rest))
    × (((run start history).writer ≢ finished)
        ⊎ (((run start history).written ≡ (run start history).accepted)
            × ((bs : List Message)
                → send bs (run start history).conn ≡ ((run start history).conn, false))))
written_in_order_example = written_in_order history

shutdown_drains_example :
    let l = step (run start history) shuts in
    ((lost : List Message) × (l.writer ≡ broken lost))
    ⊎ ((fs : List Event) × All IsWriterStep fs
        × ((run l fs).writer ≡ finished)
        × ((run l fs).written ≡ (run l fs).accepted))
shutdown_drains_example = shutdown_drains history
