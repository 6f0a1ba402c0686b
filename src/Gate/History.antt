-- ===== src/Gate/History.antt =====
-- What happens to the gate from outside, one event at a time.
-- A panic of `Receive` is recovered by the goroutine of the connection, which then shuts it.
use gogame.Common.{ℕ, List, [], ◌∷◌}
use gogame.Connection.{shutdown}
use gogame.Gate.{Gate, connect, time_action, close, set_conn}
use gogame.Gate.Forward.{receive}
use gogame.Gate.Ims.{Site}
use gogame.Gate.ImServers.{Ran, ran, panicked}
use gogame.Gate.Login.{Env}
use gogame.Gate.RouterLink

pub data Event : Type 0 where
  connects : (now con : ℕ) → Event
  receives : (con : ℕ) → List ℕ → Event
  hears : (router : ℕ) → List ℕ → Event
  ticks : (now : ℕ) → Event
  closes : Event

abbrev pub recovered : ℕ → Ran → Gate
recovered con (ran g e) = g
recovered con (panicked g) = set_conn con (shutdown (g.conns con)) g

abbrev pub gate_of : Ran → Gate
gate_of (ran g e) = g
gate_of (panicked g) = g

unfoldable pub step : Env → Site → Gate → Event → Gate
unfolding connect receive RouterLink.receive time_action close shutdown
step env site g (connects now con) = connect now con g
step env site g (receives con bytes) = recovered con (receive env site con bytes g)
step env site g (hears router bytes) = gate_of (RouterLink.receive site router bytes g)
step env site g (ticks now) = time_action now g
step env site g closes = close g

unfoldable pub run : Env → Site → Gate → List Event → Gate
unfolding step
run env site g [] = g
run env site g (e ∷ es) = run env site (step env site g e) es
