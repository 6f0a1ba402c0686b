-- ===== src/EventLoop/Timers.antt =====
-- The timers of base/eventloop/timer.go, which add a functor to the event loop when they run out.
use gogame.Common.{ℕ, Bool, true, false, List, [], ◌∷◌, ◌≡◌, refl, arith, if◌then◌else◌, ◌⊎◌, inr}
use gogame.EventLoop.{EventLoop, run_in_loop}

-- The `time.Timer`: its channel has a value once it has run out.
pub data Clock : Type 0 where
  armed run_out stopped : Clock

-- `gone` tells that the goroutine in `receiveTime` has returned, `cancelled` that its context is done.
pub record Timer : Type 0 where
  pub loop : EventLoop
  pub f : ℕ
  pub clock : Clock
  pub cancelled : Bool
  pub gone : Bool

unfoldable pub new_timer : EventLoop → ℕ → Timer
new_timer l f = record { loop = l; f = f; clock = armed; cancelled = false; gone = false }

-- `Stop` of the `time.Timer`, which reports whether it was still armed.
abbrev pub stop_clock : Clock → Clock × Bool
stop_clock armed = (stopped, true)
stop_clock run_out = (run_out, false)
stop_clock stopped = (stopped, false)

unfoldable pub stop : Timer → Timer × Bool
stop t =
    let (clock, was_armed) = stop_clock t.clock in
    if was_armed then (record t { clock = clock; cancelled = true }, true) else (t, false)

pub data Event : Type 0 where
  runs_out receives ends stops : Event

abbrev pub run_clock_out : Clock → Clock
run_clock_out armed = run_out
run_clock_out run_out = run_out
run_clock_out stopped = stopped

-- The goroutine takes the value off the channel, if there is one.
abbrev pub receive_time : Clock → Timer → Timer
receive_time run_out t = record t { loop = run_in_loop t.f t.loop; gone = true }
receive_time armed t = t
receive_time stopped t = t

unfoldable pub step : Timer → Event → Timer
unfolding stop run_in_loop
step t runs_out = record t { clock = run_clock_out t.clock }
step t receives = if t.gone then t else receive_time t.clock t
step t ends = if t.gone then t else if t.cancelled then record t { gone = true } else t
step t stops = (stop t).0

unfoldable pub run : Timer → List Event → Timer
unfolding step
run t [] = t
run t (e ∷ es) = run (step t e) es

-- A timer that has not run out has left the loop alone.
IsSilent : EventLoop → Timer → Type 0
IsSilent l t = ((t.clock ≡ run_out) ⊎ (t.loop ≡ l))

step-IsSilent : (l : EventLoop) (t : Timer) (e : Event) → IsSilent l t → IsSilent l (step t e)
unfolding IsSilent step stop
step-IsSilent l t runs_out h = ground arith
step-IsSilent l t receives h = ground arith
step-IsSilent l t ends h = ground arith
step-IsSilent l t stops h = ground arith

run-IsSilent : (l : EventLoop) (t : Timer) (es : List Event) → IsSilent l t → IsSilent l (run t es)
unfolding run
run-IsSilent l t [] h = h
run-IsSilent l t (e ∷ es) h = run-IsSilent l (step t e) es (step-IsSilent l t e h)

-- A stopped timer stays as it is, but for its goroutine.
IsOff : EventLoop → Timer → Type 0
IsOff l t = (t.clock ≡ stopped) × (t.loop ≡ l)

step-IsOff : (l : EventLoop) (t : Timer) (e : Event) → IsOff l t → IsOff l (step t e)
unfolding IsOff step stop
step-IsOff l t runs_out h = ground arith
step-IsOff l t receives h = ground arith
step-IsOff l t ends h = ground arith
step-IsOff l t stops h = ground arith

run-IsOff : (l : EventLoop) (t : Timer) (es : List Event) → IsOff l t → IsOff l (run t es)
unfolding run
run-IsOff l t [] h = h
run-IsOff l t (e ∷ es) h = run-IsOff l (step t e) es (step-IsOff l t e h)

stop-IsOff : (l : EventLoop) (t : Timer) → IsSilent l t → (stop t).1 ≡ true → IsOff l (stop t).0
unfolding stop IsSilent IsOff
stop-IsOff l t h was_armed = ground arith

-- Where `Stop` of a timer reports that it stopped it, after whatever happened to the timer, its
-- functor has not been added to the loop, and never will be.
pub stopped_timer_is_silent :
    (l : EventLoop) (f : ℕ) (es later : List Event)
    → (stop (run (new_timer l f) es)).1 ≡ true
    → (run (stop (run (new_timer l f) es)).0 later).loop ≡ l
unfolding IsOff IsSilent new_timer
stopped_timer_is_silent l f es later was_armed =
    let t = run (new_timer l f) es in
    (run-IsOff l (stop t).0 later
      (stop-IsOff l t (run-IsSilent l (new_timer l f) es (inr refl)) was_armed)).1
