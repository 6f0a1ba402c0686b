-- ===== src/Service/Tests.antt =====
-- Two services.
use gogame.Common.{◌≡◌, refl, true, false, List, [], ◌∷◌}
use gogame.Service.{
  Event, init, main_loop, stopped, destroyed, reloaded, hang_up, Outcome, runs_on, blocked,
  terminate, report, run,
}
use gogame.Service.Ordered.{EndsAs, all_events, signals_of, run-EndsAs}

abbrev blocked_at : Outcome → List Event
blocked_at (blocked i s) = s.events
blocked_at (runs_on s) = []

-- Both goroutines run the MainLoop of the last service: `stop` waits for the first one for ever.
last_runs_twice :
    blocked_at (run 2 (λ i. true) (λ k. 1) (terminate ∷ []))
    ≡ init 0 ∷ init 1 ∷ main_loop 1 ∷ main_loop 1 ∷ stopped 1 ∷ destroyed 1 ∷ []
unfolding run
last_runs_twice = refl

-- A service whose MainLoop returns on the first signal: after one to reload, the one to stop blocks.
stop_after_reload :
    blocked_at (run 1 (λ i. false) (λ k. k) (hang_up ∷ terminate ∷ []))
    ≡ init 0 ∷ main_loop 0 ∷ reloaded 0 ∷ []
unfolding run
stop_after_reload = refl

run-EndsAs_example :
    EndsAs
      (all_events 2 (true ∷ []))
      (run 2 (λ i. true) (λ k. k) (signals_of (true ∷ []) (terminate ∷ report ∷ [])))
run-EndsAs_example = run-EndsAs 2 (λ i. true) (true ∷ []) (report ∷ []) (λ i lt. refl)
