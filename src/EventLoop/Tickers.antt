-- ===== src/EventLoop/Tickers.antt =====
-- The tickers of base/eventloop/ticker.go, which add a functor to the event loop at every tick.
use gogame.Common.{
  ℕ, Bool, true, false, List, [], ◌∷◌, ◌≡◌, ◌⊎◌, refl, arith, inl, inr, if◌then◌else◌,
}
use gogame.EventLoop.{EventLoop, run_in_loop}

-- The channel of the `time.Ticker` holds one tick at most. `gone` tells that the goroutine in
-- `receiveTime` has returned, `cancelled` that its context is done.
pub record Ticker : Type 0 where
  pub loop : EventLoop
  pub f : ℕ
  pub is_pending : Bool
  pub stopped : Bool
  pub cancelled : Bool
  pub gone : Bool

unfoldable pub new_ticker : EventLoop → ℕ → Ticker
new_ticker l f = record {
  loop = l;
  f = f;
  is_pending = false;
  stopped = false;
  cancelled = false;
  gone = false;
}

unfoldable pub stop : Ticker → Ticker
stop t = record t { stopped = true; cancelled = true }

-- A tick, a choice of the goroutine's `select`, and a call of `Stop`. Where there is a tick and the
-- context is done, `select` may choose either.
pub data Event : Type 0 where
  ticks receives ends stops : Event

unfoldable pub receive_time : Ticker → Ticker
unfolding run_in_loop
receive_time t =
    if t.is_pending then record t { loop = run_in_loop t.f t.loop; is_pending = false } else t

unfoldable pub step : Ticker → Event → Ticker
unfolding stop receive_time
step t ticks = if t.stopped then t else record t { is_pending = true }
step t receives = if t.gone then t else receive_time t
step t ends = if t.gone then t else if t.cancelled then record t { gone = true } else t
step t stops = stop t

unfoldable pub run : Ticker → List Event → Ticker
unfolding step
run t [] = t
run t (e ∷ es) = run (step t e) es

-- A stopped ticker of the functor `f`, whose loop was `l` when it was stopped.
IsStopped : EventLoop → ℕ → Ticker → Type 0
IsStopped l f t =
    (t.stopped ≡ true)
    × (t.f ≡ f)
    × ((t.loop ≡ l) ⊎ ((t.is_pending ≡ false) × (t.loop ≡ run_in_loop f l)))

receive-IsStopped :
    (l : EventLoop) (f : ℕ) (t : Ticker) → IsStopped l f t → IsStopped l f (receive_time t)
unfolding IsStopped receive_time run_in_loop
receive-IsStopped l f t h = ground arith

step-IsStopped :
    (l : EventLoop) (f : ℕ) (t : Ticker) (e : Event) → IsStopped l f t → IsStopped l f (step t e)
unfolding IsStopped step stop
step-IsStopped l f t ticks h = ground arith
step-IsStopped l f t receives h = ground (arith, receive-IsStopped l f t h)
step-IsStopped l f t ends h = ground arith
step-IsStopped l f t stops h = ground arith

run-IsStopped :
    (l : EventLoop) (f : ℕ) (t : Ticker) (es : List Event)
    → IsStopped l f t
    → IsStopped l f (run t es)
unfolding run
run-IsStopped l f t [] h = h
run-IsStopped l f t (e ∷ es) h = run-IsStopped l f (step t e) es (step-IsStopped l f t e h)

-- After `Stop`, whatever happens, the ticker adds its functor to its loop once more at most.
pub stopped_ticker_ends :
    (t : Ticker) (later : List Event)
    → let t' = run (stop t) later in (t'.loop ≡ t.loop) ⊎ (t'.loop ≡ run_in_loop t.f t.loop)
unfolding IsStopped stop
stopped_ticker_ends t later =
    elim (run-IsStopped t.loop t.f (stop t) later (refl, refl, inl refl)).2 [
      | inl same ↦ inl same
      | inr once ↦ inr once.1
    ]
