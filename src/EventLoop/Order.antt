-- ===== src/EventLoop/Order.antt =====
-- The loop of base/eventloop/eventloop.go calls every functor once, in the order they were added.
use gogame.Common.{
  ℕ, Bool, true, false, List, [], ◌∷◌, ◌++◌, ◌≡◌, ◌≢◌, ◌⊎◌, inl, inr, refl, ap, sym, ◌∙◌, arith,
  if◌then◌else◌,
}
use gogame.EventLoop.{
  EventLoop, World, Runner, waiting, calling, returned, Event, posts, closes, swaps, calls,
}
use gogame.EventLoop.{run_in_loop, close, swapped, swap_or, loop_step, step, run, start}
use mathlib.Core.List.{append-nil, append_assoc}

-- What the goroutine has still to call in its round.
pub left : Runner → List ℕ
left waiting = []
left (calling fs closed) = fs
left returned = []

-- The loop is closed when the goroutine has seen it closed.
IsSeen : Runner → EventLoop → Type 0
IsSeen waiting l = Unit {0}
IsSeen (calling fs true) l = l.closed ≡ true
IsSeen (calling fs false) l = Unit {0}
IsSeen returned l = l.closed ≡ true

record IsOrdered (w : World) : Type 0 where
  order : w.posted ≡ w.done ++ (left w.runner ++ w.loop.functors)
  seen : IsSeen w.runner w.loop

close-IsSeen : (r : Runner) (l : EventLoop) → IsSeen r l → IsSeen r (close l)
unfolding IsSeen close
close-IsSeen waiting l s = tt
close-IsSeen (calling fs true) l s = ground arith
close-IsSeen (calling fs false) l s = tt
close-IsSeen returned l s = ground arith

close-functors : (l : EventLoop) → (close l).functors ≡ l.functors
unfolding close
close-functors l = ground arith

post-IsSeen : (r : Runner) (l : EventLoop) (f : ℕ) → IsSeen r l → IsSeen r (run_in_loop f l)
unfolding IsSeen run_in_loop
post-IsSeen waiting l f s = tt
post-IsSeen (calling fs true) l f s = s
post-IsSeen (calling fs false) l f s = tt
post-IsSeen returned l f s = s

swap-IsSeen :
    (l : EventLoop) (fs : List ℕ) (c : Bool)
    → l.closed ≡ c
    → IsSeen (calling fs c) (record l { functors = [] })
unfolding IsSeen
swap-IsSeen l fs true e = e
swap-IsSeen l fs false e = tt

module _ (w : World) (h : IsOrdered w) where
  order_at : (r : Runner) → w.runner ≡ r → w.posted ≡ w.done ++ (left r ++ w.loop.functors)
  order_at r e = rw e at h.order

  IsSeen-at : (r : Runner) → w.runner ≡ r → IsSeen r w.loop
  IsSeen-at r e = rw e at h.seen

  swapped-IsOrdered :
      (fs : List ℕ) (c : Bool)
      → w.loop.closed ≡ c
      → w.posted ≡ w.done ++ fs
      → IsOrdered (swap_or w (swapped w.loop fs c))
  unfolding swapped left
  swapped-IsOrdered [] false e order = h
  swapped-IsOrdered fs c e order = record {
    order = order ∙ ap (λ x. w.done ++ x) (sym (append-nil fs));
    seen = swap-IsSeen w.loop fs c e;
  }

  ended-IsOrdered :
      (c : Bool)
      → w.runner ≡ calling [] c
      → IsOrdered (record w { runner = if c then returned else waiting })
  unfolding left IsSeen
  ended-IsOrdered true e = record { order = order_at _ e; seen = IsSeen-at _ e }
  ended-IsOrdered false e = record { order = order_at _ e; seen = tt }

  called-IsSeen :
      (f : ℕ) (fs : List ℕ) (c : Bool)
      → w.runner ≡ calling (f ∷ fs) c
      → IsSeen (calling fs c) w.loop
  unfolding IsSeen
  called-IsSeen f fs true e = IsSeen-at (calling (f ∷ fs) true) e
  called-IsSeen f fs false e = tt

  loop_step-IsOrdered : (r : Runner) (e : Event) → w.runner ≡ r → IsOrdered (loop_step w r e)
  unfolding loop_step left
  loop_step-IsOrdered waiting swaps e =
      swapped-IsOrdered w.loop.functors w.loop.closed refl (order_at waiting e)
  loop_step-IsOrdered (calling (f ∷ fs) c) calls e = record {
    order = order_at _ e ∙ sym (append_assoc w.done (f ∷ []) (fs ++ w.loop.functors));
    seen = called-IsSeen f fs c e;
  }
  loop_step-IsOrdered (calling [] c) calls e = ended-IsOrdered c e
  loop_step-IsOrdered _ _ e = h

regroup : (a b c d : List ℕ) → (a ++ (b ++ c)) ++ d ≡ a ++ (b ++ (c ++ d))
regroup a b c d = append_assoc a (b ++ c) d ∙ ap (λ x. a ++ x) (append_assoc b c d)

step-IsOrdered : (w : World) (e : Event) → IsOrdered w → IsOrdered (step w e)
unfolding step run_in_loop
step-IsOrdered w (posts f) h = record {
  order = ap (λ x. x ++ (f ∷ [])) h.order ∙ regroup w.done (left w.runner) w.loop.functors (f ∷ []);
  seen = post-IsSeen w.runner w.loop f h.seen;
}
step-IsOrdered w closes h = record {
  order = rw (close-functors w.loop) h.order;
  seen = close-IsSeen w.runner w.loop h.seen;
}
step-IsOrdered w swaps h = loop_step-IsOrdered w h w.runner swaps refl
step-IsOrdered w calls h = loop_step-IsOrdered w h w.runner calls refl

run-IsOrdered : (w : World) (es : List Event) → IsOrdered w → IsOrdered (run w es)
unfolding run
run-IsOrdered w [] h = h
run-IsOrdered w (e ∷ es) h = run-IsOrdered (step w e) es (step-IsOrdered w e h)

start-IsOrdered : IsOrdered start
unfolding start left IsSeen
start-IsOrdered = record { order = refl; seen = tt }

-- After `Loop` has returned, nothing is called and nothing is taken from what waits.
step_over :
    (w : World) (e : Event)
    → w.runner ≡ returned
    → ((step w e).runner ≡ returned) × ((step w e).done ≡ w.done)
unfolding step loop_step run_in_loop
step_over w (posts f) h = (h, refl)
step_over w closes h = (h, refl)
step_over w swaps h =
    (ap (λ r. (loop_step w r swaps).runner) h ∙ h, ap (λ r. (loop_step w r swaps).done) h)
step_over w calls h =
    (ap (λ r. (loop_step w r calls).runner) h ∙ h, ap (λ r. (loop_step w r calls).done) h)

run_over : (w : World) (later : List Event) → w.runner ≡ returned → (run w later).done ≡ w.done
unfolding run
run_over w [] h = refl
run_over w (e ∷ later) h =
    let (still, same) = step_over w e h in run_over (step w e) later still ∙ same

-- Under every interleaving, the functors added are those called so far, in this order, then those
-- left of the round, then those that wait for the next. Where `Loop` has returned, it was closed, and
-- whatever happens later, no functor is called any more: neither those that wait nor those that are
-- still added.
pub called_in_order :
    (es later : List Event)
    → let w = run start es in
      (w.posted ≡ w.done ++ (left w.runner ++ w.loop.functors))
      × ((w.runner ≢ returned)
          ⊎ ((w.loop.closed ≡ true)
              × (w.posted ≡ w.done ++ w.loop.functors)
              × ((run w later).done ≡ w.done)))
unfolding left IsSeen
called_in_order es later = (h.order, ends w.runner refl)
  where
    w : World
    w = run start es

    h : IsOrdered w
    h = run-IsOrdered start es start-IsOrdered

    ends :
        (r : Runner)
        → w.runner ≡ r
        → (w.runner ≢ returned)
          ⊎ ((w.loop.closed ≡ true)
              × (w.posted ≡ w.done ++ w.loop.functors)
              × ((run w later).done ≡ w.done))
    ends waiting e = inl (λ f. cc)
    ends (calling fs c) e = inl (λ f. cc)
    ends returned e = inr (IsSeen-at w h returned e, order_at w h returned e, run_over w later e)
