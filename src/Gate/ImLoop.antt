-- ===== src/Gate/ImLoop.antt =====
-- The goroutine of an instant-message server: `Start`, `run` and `IMMgr.Close` of
-- gamegate/imclient.go.
-- The client that dials is a goroutine of its own (TcpClient), of which `run` sees the state that it
-- notifies and whether it is closed.
use gogame.Common.{
  ℕ, suc, ◌≡◌, ◌⊎◌, refl, sym, inl, inr, Bool, true, false, List, [], ◌∷◌, if◌then◌else◌,
}
use mathlib.Core.Path.{subst}

-- `run` waits for the client's state; is in its inner loop, with the timer of a second pending or
-- not; or has returned.
pub data Phase : Type 0 where
  connecting : Phase
  watching : (is_armed : Bool) → Phase
  returned : Phase

-- `dials` counts the clients that were made, `readies` the calls of `register`.
pub record ImLoop : Type 0 where
  pub phase : Phase
  pub dials : ℕ
  pub readies : ℕ

-- The notified state is received; a second passes, with the client closed or not; `DieChan` is
-- closed.
pub data Event : Type 0 where
  notified passes : Bool → Event
  dies : Event

unfoldable pub start : ImLoop
start = record { phase = connecting; dials = 1; readies = 0 }

abbrev pub dial_again : ImLoop → ImLoop
dial_again s = record s { phase = connecting; dials = suc s.dials }

-- The timer is not set again.
unfoldable pub loop_step : Phase → Event → ImLoop → ImLoop
loop_step connecting (notified ok) s =
    if ok then record s { phase = watching true; readies = suc s.readies } else dial_again s
loop_step (watching true) (passes is_closed) s =
    if is_closed then dial_again s else record s { phase = watching false }
loop_step (watching is_armed) dies s = record s { phase = returned }
loop_step _ _ s = s

unfoldable pub step : ImLoop → Event → ImLoop
unfolding loop_step
step s e = loop_step s.phase e s

unfoldable pub run : ImLoop → List Event → ImLoop
unfolding step
run s [] = s
run s (e ∷ es) = run (step s e) es

IsStuck : ℕ → ImLoop → Type 0
IsStuck n s = (s.dials ≡ n) × ((s.phase ≡ watching false) ⊎ (s.phase ≡ returned))

watching-IsStuck :
    (n : ℕ) (s : ImLoop) (e : Event)
    → s.dials ≡ n
    → s.phase ≡ watching false
    → IsStuck n (loop_step (watching false) e s)
unfolding IsStuck loop_step
watching-IsStuck n s (notified ok) d p = (d, inl p)
watching-IsStuck n s (passes is_closed) d p = (d, inl p)
watching-IsStuck n s dies d p = (d, inr refl)

returned-IsStuck :
    (n : ℕ) (s : ImLoop) (e : Event)
    → s.dials ≡ n
    → s.phase ≡ returned
    → IsStuck n (loop_step returned e s)
unfolding IsStuck loop_step
returned-IsStuck n s (notified ok) d p = (d, inr p)
returned-IsStuck n s (passes is_closed) d p = (d, inr p)
returned-IsStuck n s dies d p = (d, inr p)

step-IsStuck : (n : ℕ) (s : ImLoop) (e : Event) → IsStuck n s → IsStuck n (step s e)
unfolding step IsStuck
step-IsStuck n s e h = elim h.1 [
  | inl p ↦ subst (λ q. IsStuck n (loop_step q e s)) (sym p) (watching-IsStuck n s e h.0 p)
  | inr p ↦ subst (λ q. IsStuck n (loop_step q e s)) (sym p) (returned-IsStuck n s e h.0 p)
]

run-IsStuck : (n : ℕ) (s : ImLoop) (es : List Event) → IsStuck n s → IsStuck n (run s es)
unfolding run
run-IsStuck n s [] h = h
run-IsStuck n s (e ∷ es) h = run-IsStuck n (step s e) es (step-IsStuck n s e h)

-- Once the timer has found the client open, whatever happens, `run` makes no new client: it watches
-- for ever or returns.
pub never_dials_again :
    (s : ImLoop) (es : List Event)
    → s.phase ≡ watching false
    → let s' = run s es in
      (s'.dials ≡ s.dials) × ((s'.phase ≡ watching false) ⊎ (s'.phase ≡ returned))
unfolding IsStuck
never_dials_again s es p = run-IsStuck s.dials s es (refl, inl p)
