-- ===== src/Service/Ordered.antt =====
-- Services are destroyed in the reverse order of their start, when each goroutine runs its own service.
use gogame.Common.{ℕ, ◌<◌, ◌≡◌, sym, ap, ◌∙◌, Bool, true, false, List, [], ◌∷◌, ◌++◌, arith}
use mathlib.Core.List.{append_assoc}
use mathlib.Core.Path.{subst}
use gogame.Service.{
  Event, init, main_loop, reloaded, reported, Services, register_all, init_from, start_from,
  on_init, Outcome, runs_on, blocked, stop_below, stop, send_from, Signal, hang_up, report,
  terminate, and_then, listen_signal, run,
}
use gogame.Service.Steps.{
  HaveReceivers, stop_events, EndsWith, EndsWith-more, stop_below-EndsWith, each_from, Adds-more,
  send_from-Adds, init_from-Adds, start_from-Adds, start_from-receivers,
}

-- Signals to reload and to report, before the one to stop.
abbrev pub signal_of : Bool → Signal
signal_of true = hang_up
signal_of false = report

abbrev pub event_of : Bool → ℕ → Event
event_of true = reloaded
event_of false = reported

abbrev pub handled_events : ℕ → List Bool → List Event
handled_events n [] = []
handled_events n (b ∷ handled) = each_from (event_of b) n 0 ++ handled_events n handled

abbrev pub signals_of : List Bool → List Signal → List Signal
signals_of [] rest = rest
signals_of (b ∷ handled) rest = signal_of b ∷ signals_of handled rest

listen_signal-cons :
    (b : Bool) (signals : List Signal) (s s' : Services)
    → send_from (event_of b) s.count 0 s ≡ runs_on s'
    → listen_signal (signal_of b ∷ signals) s ≡ listen_signal signals s'
unfolding listen_signal
listen_signal-cons true signals s s' e = ap (λ o. and_then o (listen_signal signals)) e
listen_signal-cons false signals s s' e = ap (λ o. and_then o (listen_signal signals)) e

-- Signals to reload or report come only to services whose MainLoops go on after them.
abbrev pub GoOn : ℕ → (ℕ → Bool) → List Bool → Type 0
GoOn n goes_on [] = Unit {0}
GoOn n goes_on (b ∷ handled) = (i : ℕ) → i < n → goes_on i ≡ true

GoOn-tail :
    (n : ℕ) (goes_on : ℕ → Bool) (handled : List Bool)
    → ((i : ℕ) → i < n → goes_on i ≡ true)
    → GoOn n goes_on handled
GoOn-tail n goes_on [] h = tt
GoOn-tail n goes_on (b ∷ handled) h = h

listen_signal-EndsWith :
    (n : ℕ) (handled : List Bool) (rest : List Signal) (s : Services)
    → s.count ≡ n
    → HaveReceivers n s
    → GoOn n s.goes_on handled
    → EndsWith
        (handled_events n handled ++ stop_events n)
        s
        (listen_signal (signals_of handled (terminate ∷ rest)) s)
unfolding listen_signal stop
listen_signal-EndsWith n [] rest s e h on =
    subst (λ k. EndsWith (stop_events n) s (stop_below k s)) (sym e) (stop_below-EndsWith n s h)
listen_signal-EndsWith n (b ∷ handled) rest s e h on =
    let (s', sent, a) =
      send_from-Adds (event_of b) n 0 s (λ i lt. h i (omega arith)) (λ i lt. on i (omega arith)) in
    let sent_all : send_from (event_of b) s.count 0 s ≡ runs_on s' =
      subst (λ k. send_from (event_of b) k 0 s ≡ runs_on s') (sym e) sent in
    let later =
      listen_signal-EndsWith n handled rest s' (a.same_count ∙ e) (λ i lt. a.kept i (h i lt))
        (GoOn-tail n s'.goes_on handled (λ i lt. ap (λ g. g i) a.same_loops ∙ on i lt)) in
    rw
      (
        append_assoc (each_from (event_of b) n 0) (handled_events n handled) (stop_events n),
        listen_signal-cons b (signals_of handled (terminate ∷ rest)) s s' sent_all,
      )
      (EndsWith-more (each_from (event_of b) n 0) (handled_events n handled ++ stop_events n) s s'
        (listen_signal (signals_of handled (terminate ∷ rest)) s') a.added later)

-- All the events of a process.
abbrev pub all_events : ℕ → List Bool → List Event
all_events n handled =
    (each_from init n 0 ++ each_from main_loop n 0) ++ (handled_events n handled ++ stop_events n)

-- It is not blocked, and this happened.
abbrev pub EndsAs : List Event → Outcome → Type 0
EndsAs events (runs_on s) = s.events ≡ events
EndsAs events (blocked i s) = ⊥

EndsAs-EndsWith :
    (before events : List Event) (s : Services) (o : Outcome)
    → s.events ≡ before
    → EndsWith events s o
    → EndsAs (before ++ events) o
EndsAs-EndsWith before events s (runs_on s') e h = h ∙ ap (λ b. b ++ events) e
EndsAs-EndsWith before events s (blocked i s') e h = h

-- Where each goroutine runs its own service, and either no signal comes before the first one to stop,
-- or every MainLoop goes on after those to reload and to report: all services are initialised before
-- any runs, each signal to reload or report reaches all of them in order, and at the first signal to
-- stop they are stopped and destroyed from the last one down. Later signals have no effect.
pub run-EndsAs :
    (n : ℕ) (goes_on : ℕ → Bool) (handled : List Bool) (rest : List Signal)
    → GoOn n goes_on handled
    → EndsAs (all_events n handled) (run n goes_on (λ k. k) (signals_of handled (terminate ∷ rest)))
unfolding run on_init register_all
run-EndsAs n goes_on handled rest on =
    let begun = init_from-Adds n 0 (register_all n goes_on) in
    let all =
      Adds-more (each_from init n 0) (each_from main_loop n 0) (register_all n goes_on)
        (init_from n 0 (register_all n goes_on))
        (start_from (λ k. k) n 0 (init_from n 0 (register_all n goes_on))) begun
        (start_from-Adds n 0 (init_from n 0 (register_all n goes_on))) in
    EndsAs-EndsWith (each_from init n 0 ++ each_from main_loop n 0)
      (handled_events n handled ++ stop_events n)
      (start_from (λ k. k) n 0 (init_from n 0 (register_all n goes_on)))
      (listen_signal (signals_of handled (terminate ∷ rest))
        (start_from (λ k. k) n 0 (init_from n 0 (register_all n goes_on))))
      all.added
      (listen_signal-EndsWith n handled rest
        (start_from (λ k. k) n 0 (init_from n 0 (register_all n goes_on))) all.same_count
        (λ i lt.
          start_from-receivers n 0 i (init_from n 0 (register_all n goes_on)) (omega arith)
            (omega arith))
        (subst (λ g. GoOn n g handled) (sym all.same_loops) on))
