-- ===== src/EventLoop/Tests.antt =====
-- The event loop at a concrete history: a functor that is added after `Close` is not called.
use gogame.Common.{true, List, [], ◌∷◌, ◌++◌, ◌≡◌, ◌≢◌, ◌⊎◌, refl}
use gogame.EventLoop.{Event, posts, closes, swaps, calls, returned, run, start}
use gogame.EventLoop.Order.{left, called_in_order}

abbrev history : List Event
history = posts 1 ∷ posts 2 ∷ closes ∷ swaps ∷ calls ∷ posts 3 ∷ calls ∷ calls ∷ swaps ∷ []

history_done : (run start history).done ≡ 1 ∷ 2 ∷ []
unfolding run start
history_done = refl

called_in_order_example :
    let w = run start history in
    (w.posted ≡ w.done ++ (left w.runner ++ w.loop.functors))
    × ((w.runner ≢ returned)
        ⊎ ((w.loop.closed ≡ true)
            × (w.posted ≡ w.done ++ w.loop.functors)
            × ((run w (posts 4 ∷ swaps ∷ calls ∷ [])).done ≡ w.done)))
called_in_order_example = called_in_order history (posts 4 ∷ swaps ∷ calls ∷ [])
