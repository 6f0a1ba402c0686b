-- ===== src/Service.antt =====
-- The services of a process: base/service/service.go. A service is its index in `services`, and what
-- the process does is a list of events. `onInit` starts one goroutine for each service with a closure
-- over the loop's variable: the schedule `runs` tells which service's MainLoop each of them runs. A
-- send on a service's channel without a buffer waits for a MainLoop of that service. A MainLoop is the
-- service's own: it returns when it receives the signal to stop, and after another signal it goes on to
-- receive or, as that of gamesvr/sys.go, returns too (`goes_on`).
pub mod Steps
pub mod Ordered
mod Tests
use gogame.Common.{
  ℕ, zero, suc, ◌+◌, ◌-◌, Bool, true, false, List, [], ◌∷◌, ◌++◌, if◌then◌else◌, ◌==◌,
}

pub data Event : Type 0 where
  init : ℕ → Event
  main_loop : ℕ → Event
  stopped : ℕ → Event
  reloaded : ℕ → Event
  reported : ℕ → Event
  destroyed : ℕ → Event

-- The running MainLoops of each service, and what happened, in order.
pub record Services : Type 0 where
  pub count : ℕ
  pub receivers : ℕ → ℕ
  pub events : List Event
  pub goes_on : ℕ → Bool

-- `Register`, for each service that is given to `Run`.
unfoldable pub register_all : ℕ → (ℕ → Bool) → Services
register_all n goes_on = record { count = n; receivers = λ i. 0; events = []; goes_on = goes_on }

abbrev pub one_more : ℕ → (ℕ → ℕ) → ℕ → ℕ
one_more i receivers k = if k == i then receivers k + 1 else receivers k

abbrev pub one_less : ℕ → (ℕ → ℕ) → ℕ → ℕ
one_less i receivers k = if k == i then receivers k - 1 else receivers k

abbrev pub add_event : Event → Services → Services
add_event e s = record {
  count = s.count;
  receivers = s.receivers;
  events = s.events ++ e ∷ [];
  goes_on = s.goes_on;
}

-- The loops of `onInit` over the services from `i` on, of which there are `n`.
unfoldable pub init_from : ℕ → ℕ → Services → Services
init_from zero i s = s
init_from (suc n) i s = init_from n (suc i) (add_event (init i) s)

abbrev pub started : ℕ → Services → Services
started i s = record {
  count = s.count;
  receivers = one_more i s.receivers;
  events = s.events ++ main_loop i ∷ [];
  goes_on = s.goes_on;
}

unfoldable pub start_from : (ℕ → ℕ) → ℕ → ℕ → Services → Services
start_from runs zero i s = s
start_from runs (suc n) i s = start_from runs n (suc i) (started (runs i) s)

unfoldable pub on_init : (ℕ → ℕ) → Services → Services
unfolding init_from start_from
on_init runs s = start_from runs s.count 0 (init_from s.count 0 s)

-- A send to a service that no MainLoop runs blocks for ever.
pub data Outcome : Type 0 where
  runs_on : Services → Outcome
  blocked : ℕ → Services → Outcome

abbrev pub received : ℕ → ℕ → Services → (Services → Outcome) → Outcome
received i zero s rest = blocked i s
received i (suc n) s rest = rest s

-- A service is stopped, waited for and destroyed.
abbrev pub stop_one : ℕ → Services → Services
stop_one i s = record {
  count = s.count;
  receivers = one_less i s.receivers;
  events = s.events ++ (stopped i ∷ destroyed i ∷ []);
  goes_on = s.goes_on;
}

-- `stop`, for the services below `n`, from the last one down.
unfoldable pub stop_below : ℕ → Services → Outcome
stop_below zero s = runs_on s
stop_below (suc i) s = received i (s.receivers i) s (λ s. stop_below i (stop_one i s))

unfoldable pub stop : Services → Outcome
unfolding stop_below
stop s = stop_below s.count s

-- A service has received a signal that is not the one to stop.
abbrev pub signalled : Event → ℕ → Services → Services
signalled event i s = record {
  count = s.count;
  receivers = if s.goes_on i then s.receivers else one_less i s.receivers;
  events = s.events ++ event ∷ [];
  goes_on = s.goes_on;
}

-- `Reload` and `ReportState`, for `n` services from `i` on.
unfoldable pub send_from : (ℕ → Event) → ℕ → ℕ → Services → Outcome
send_from event zero i s = runs_on s
send_from event (suc n) i s =
    received i (s.receivers i) s (λ s. send_from event n (suc i) (signalled (event i) i s))

pub data Signal : Type 0 where
  hang_up report terminate : Signal

-- `listenSignal`, over the signals that arrive; after `stop` the process ends.
abbrev pub and_then : Outcome → (Services → Outcome) → Outcome
and_then (runs_on s) rest = rest s
and_then (blocked i s) rest = blocked i s

unfoldable pub listen_signal : List Signal → Services → Outcome
unfolding stop send_from
listen_signal [] s = runs_on s
listen_signal (hang_up ∷ signals) s =
    and_then (send_from reloaded s.count 0 s) (listen_signal signals)
listen_signal (report ∷ signals) s =
    and_then (send_from reported s.count 0 s) (listen_signal signals)
listen_signal (terminate ∷ signals) s = stop s

-- `Run` without the monitor.
unfoldable pub run : ℕ → (ℕ → Bool) → (ℕ → ℕ) → List Signal → Outcome
unfolding register_all on_init listen_signal
run n goes_on runs signals = listen_signal signals (on_init runs (register_all n goes_on))
