-- ===== src/EventLoop.antt =====
-- The event loop of base/eventloop/eventloop.go: `RunInLoop` and `Close`, called by anyone under the
-- mutex, and the goroutine in `Loop`. A functor is a number that names it. `posted` and `done` record
-- the functors that were added, and those that have been called.
pub mod Order
pub mod Timers
pub mod Tickers
mod Tests
use gogame.Common.{ℕ, Bool, true, false, List, [], ◌∷◌, ◌++◌, Option, none, some, if◌then◌else◌}

pub record EventLoop : Type 0 where
  pub functors : List ℕ
  pub closed : Bool

unfoldable pub new_event_loop : EventLoop
new_event_loop = record { functors = []; closed = false }

unfoldable pub run_in_loop : ℕ → EventLoop → EventLoop
run_in_loop f l = record l { functors = l.functors ++ (f ∷ []) }

unfoldable pub close : EventLoop → EventLoop
close l = if l.closed then l else record l { closed = true }

-- The goroutine: about to swap the functors out, calling those of a round, or returned.
pub data Runner : Type 0 where
  waiting : Runner
  calling : List ℕ → Bool → Runner
  returned : Runner

pub record World : Type 0 where
  pub loop : EventLoop
  pub runner : Runner
  pub posted : List ℕ
  pub done : List ℕ

-- The locked part of a round: it waits (`none`) while the loop is open and has no functors.
pub swapped : EventLoop → List ℕ → Bool → Option (EventLoop × Runner)
swapped l [] false = none
swapped l fs closed = some (record l { functors = [] }, calling fs closed)

pub data Event : Type 0 where
  posts : ℕ → Event
  closes : Event
  swaps : Event
  calls : Event

abbrev pub swap_or : World → Option (EventLoop × Runner) → World
swap_or w none = w
swap_or w (some (l, r)) = record w { loop = l; runner = r }

-- A round ends after its last functor, and with it the loop if it was closed.
unfoldable pub loop_step : World → Runner → Event → World
unfolding swapped
loop_step w waiting swaps = swap_or w (swapped w.loop w.loop.functors w.loop.closed)
loop_step w (calling (f ∷ fs) closed) calls = record w {
  done = w.done ++ (f ∷ []);
  runner = calling fs closed;
}
loop_step w (calling [] closed) calls = record w { runner = if closed then returned else waiting }
loop_step w _ _ = w

unfoldable pub step : World → Event → World
unfolding run_in_loop close loop_step
step w (posts f) = record w { loop = run_in_loop f w.loop; posted = w.posted ++ (f ∷ []) }
step w closes = record w { loop = close w.loop }
step w swaps = loop_step w w.runner swaps
step w calls = loop_step w w.runner calls

unfoldable pub run : World → List Event → World
unfolding step
run w [] = w
run w (e ∷ es) = run (step w e) es

unfoldable pub start : World
unfolding new_event_loop
start = record { loop = new_event_loop; runner = waiting; posted = []; done = [] }
