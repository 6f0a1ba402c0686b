-- ===== src/Service/Steps.antt =====
-- What each loop over the services adds to the events.
use gogame.Common.{
  ℕ, zero, suc, ◌+◌, ◌<◌, ◌≤◌, ◌≡◌, refl, sym, ap, ◌∙◌, inl, inr, List, [], ◌∷◌, ◌++◌, ◌==◌,
  Bool-cases, arith, true,
}
use mathlib.Core.List.{append-nil, append_assoc}
use gogame.Service.{
  Event, init, main_loop, stopped, destroyed, Services, one_less, add_event, init_from, started,
  start_from, Outcome, runs_on, blocked, received, signalled, stop_one, stop_below, send_from,
}

-- Each of the first `n` services has a MainLoop.
abbrev pub HaveReceivers : ℕ → Services → Type 0
HaveReceivers n s = (i : ℕ) → i < n → 0 < s.receivers i

-- What `stop` does: from the last service down.
abbrev pub stop_events : ℕ → List Event
stop_events zero = []
stop_events (suc i) = stopped i ∷ destroyed i ∷ stop_events i

abbrev pub EndsWith : List Event → Services → Outcome → Type 0
EndsWith events s (runs_on s') = s'.events ≡ s.events ++ events
EndsWith events s (blocked i s') = ⊥

received-EndsWith :
    (events : List Event) (s : Services) (i k : ℕ) (rest : Services → Outcome)
    → 0 < k
    → EndsWith events s (rest s)
    → EndsWith events s (received i k s rest)
received-EndsWith events s i zero rest h e = absurd (omega arith)
received-EndsWith events s i (suc k) rest h e = e

pub EndsWith-more :
    (events more : List Event) (s s' : Services) (o : Outcome)
    → s'.events ≡ s.events ++ events
    → EndsWith more s' o
    → EndsWith (events ++ more) s o
EndsWith-more events more s s' (runs_on s'') e h =
    h ∙ ap (λ before. before ++ more) e ∙ append_assoc s.events events more
EndsWith-more events more s s' (blocked i s'') e h = h

one_less-receivers :
    (n i k : ℕ) (s : Services) → HaveReceivers (suc n) s → i < n → 0 < one_less n s.receivers i
one_less-receivers n i k s h lt = ground (arith, h i)

pub stop_below-EndsWith :
    (n : ℕ) (s : Services) → HaveReceivers n s → EndsWith (stop_events n) s (stop_below n s)
unfolding stop_below
stop_below-EndsWith zero s h = sym (append-nil s.events)
stop_below-EndsWith (suc n) s h =
    received-EndsWith (stop_events (suc n)) s n (s.receivers n) (λ s. stop_below n (stop_one n s))
      (h n (omega arith))
      (EndsWith-more (stopped n ∷ destroyed n ∷ []) (stop_events n) s (stop_one n s)
        (stop_below n (stop_one n s)) refl
        (stop_below-EndsWith n (stop_one n s) (λ i lt. one_less-receivers n i 0 s h lt)))

-- One event for each of the services from `i` on.
abbrev pub each_from : (ℕ → Event) → ℕ → ℕ → List Event
each_from event zero i = []
each_from event (suc n) i = event i ∷ each_from event n (suc i)

-- What a step over the services adds; each service keeps a MainLoop.
pub record Adds (events : List Event) (s s' : Services) : Type 0 where
  pub added : s'.events ≡ s.events ++ events
  pub kept : (i : ℕ) → 0 < s.receivers i → 0 < s'.receivers i
  pub same_count : s'.count ≡ s.count
  pub same_loops : s'.goes_on ≡ s.goes_on

Adds-nothing : (s : Services) → Adds [] s s
Adds-nothing s = record {
  added = sym (append-nil s.events);
  kept = λ i h. h;
  same_count = refl;
  same_loops = refl;
}

pub Adds-more :
    (events more : List Event) (s s' s'' : Services)
    → Adds events s s'
    → Adds more s' s''
    → Adds (events ++ more) s s''
Adds-more events more s s' s'' a b = record {
  added = b.added ∙ ap (λ before. before ++ more) a.added ∙ append_assoc s.events events more;
  kept = λ i h. b.kept i (a.kept i h);
  same_count = b.same_count ∙ a.same_count;
  same_loops = b.same_loops ∙ a.same_loops;
}

received-runs :
    (i k : ℕ) (s : Services) (rest : Services → Outcome) → 0 < k → received i k s rest ≡ rest s
received-runs i zero s rest h = absurd (omega arith)
received-runs i (suc k) s rest h = refl

-- A service whose MainLoop goes on has received a signal.
signalled-Adds :
    (event : Event) (i : ℕ) (s : Services)
    → s.goes_on i ≡ true
    → Adds (event ∷ []) s (signalled event i s)
signalled-Adds event i s h = record {
  added = refl;
  kept = λ k g. rw h g;
  same_count = refl;
  same_loops = refl;
}

-- A signal is received by every service, in order.
pub send_from-Adds :
    (event : ℕ → Event) (n i : ℕ) (s : Services)
    → HaveReceivers (i + n) s
    → ((k : ℕ) → k < i + n → s.goes_on k ≡ true)
    → (s' : Services) × (send_from event n i s ≡ runs_on s') × Adds (each_from event n i) s s'
unfolding send_from
send_from-Adds event zero i s h on = (s, refl, Adds-nothing s)
send_from-Adds event (suc n) i s h on =
    let one = signalled-Adds (event i) i s (on i (omega arith)) in
    let (s', e, a) =
      send_from-Adds event n (suc i) (signalled (event i) i s)
        (λ k lt. one.kept k (h k (omega arith))) (λ k lt. on k (omega arith)) in
    (
      s',
      received-runs i (s.receivers i) s (λ s. send_from event n (suc i) (signalled (event i) i s))
            (h i (omega arith))
          ∙ e,
      Adds-more (event i ∷ []) (each_from event n (suc i)) s (signalled (event i) i s) s' one a,
    )

pub init_from-Adds : (n i : ℕ) (s : Services) → Adds (each_from init n i) s (init_from n i s)
unfolding init_from
init_from-Adds zero i s = Adds-nothing s
init_from-Adds (suc n) i s =
    Adds-more (init i ∷ []) (each_from init n (suc i)) s (add_event (init i) s)
      (init_from n (suc i) (add_event (init i) s))
      (record { added = refl; kept = λ k g. g; same_count = refl; same_loops = refl })
      (init_from-Adds n (suc i) (add_event (init i) s))

started-Adds : (i : ℕ) (s : Services) → Adds (main_loop i ∷ []) s (started i s)
started-Adds i s = record {
  added = refl;
  kept = λ k g. ground arith;
  same_count = refl;
  same_loops = refl;
}

pub start_from-Adds :
    (n i : ℕ) (s : Services) → Adds (each_from main_loop n i) s (start_from (λ k. k) n i s)
unfolding start_from
start_from-Adds zero i s = Adds-nothing s
start_from-Adds (suc n) i s =
    Adds-more (main_loop i ∷ []) (each_from main_loop n (suc i)) s (started i s)
      (start_from (λ k. k) n (suc i) (started i s)) (started-Adds i s)
      (start_from-Adds n (suc i) (started i s))

-- With its own goroutine each service that was started has a MainLoop.
pub start_from-receivers :
    (n i k : ℕ) (s : Services) → i ≤ k → k < i + n → 0 < (start_from (λ k. k) n i s).receivers k
unfolding start_from
start_from-receivers zero i k s h lt = absurd (omega arith)
start_from-receivers (suc n) i k s h lt = elim (Bool-cases (k == i)) [
  | inl this ↦ (start_from-Adds n (suc i) (started i s)).kept k (rw this (omega arith))
  | inr other ↦ start_from-receivers n (suc i) k (started i s) (ground arith) (omega arith)
]
