-- ===== src/RedisMutex/Safety.antt =====
-- While the key of base/dao/redis/redismutex.go is neither lost nor cleared, one client at most holds
-- the lock.
use gogame.Common.{ℕ, ◌≤◌, ◌≡◌, refl, ap, arith, Bool, true, false, List, [], ◌∷◌, Option, none}
use gogame.Common.{replicate, inl, inr, if◌then◌else◌, Bool-cases}
use gogame.RedisMutex.{ℤ, Client, idle}
use gogame.RedisMutex.{World, Event, locks, unlocks, acts, expires}
use gogame.RedisMutex.{client_at, set_client, step, run}
use gogame.RedisMutex.Total.{total, total-replicate, one-le-total, total-set_client, total_mono}
use gogame.RedisMutex.Moves.{
  taken, holds, resets, is_busy, is_calm_for, level, is_count, IsMove, holds-le-taken, act-IsMove,
  begin_lock-IsMove, begin_unlock-IsMove,
}

pub holders : List Client → ℕ
holders cs = total holds cs

abbrev is_calm : World → Event → Bool
is_calm w (locks i) = true
is_calm w (unlocks i) = is_busy (client_at i w.clients)
is_calm w (acts i o) = is_calm_for (client_at i w.clients) o
is_calm w expires = false

unfoldable pub calm : World → List Event → Bool
unfolding step
calm w [] = true
calm w (e ∷ es) = let rest = calm (step w e) es in if is_calm w e then rest else false

record IsSafe (w : World) : Type 0 where
  count : is_count w.key ≡ true
  shares : total taken w.clients ≤ level w.key
  one : total holds w.clients ≤ 1
  none_resets : total resets w.clients ≡ 0

-- A move of the client at an index keeps the invariant.
move-IsSafe :
    (w : World) (i : ℕ) (c : Client) (key : Option ℤ)
    → IsSafe w
    → IsMove (client_at i w.clients) c w.key key
    → IsSafe (record { key = key; clients = set_client i c w.clients })
move-IsSafe w i c key safe move = record {
  count = move.count;
  shares = elim (total-set_client taken i c w.clients) [
    | inl (absent, same) ↦
        rw same (let empty = ap taken absent in omega (arith, empty, move.shares, safe.shares))
    | inr moved ↦ omega (arith, moved, move.shares, safe.shares)
  ];
  one = elim (total-set_client holds i c w.clients) [
    | inl (absent, same) ↦ rw same safe.one
    | inr moved ↦ elim move.one [
      | inl fewer ↦ omega (arith, moved, fewer, safe.one)
      | inr (empty, new) ↦
          omega
            (arith, moved, empty, new, safe.shares, total_mono holds taken holds-le-taken w.clients)
    ]
  ];
  none_resets = elim (total-set_client resets i c w.clients) [
    | inl (absent, same) ↦ rw same safe.none_resets
    | inr moved ↦ omega (arith, moved, move.none_resets, safe.none_resets)
  ];
}

step-IsSafe : (w : World) (e : Event) → is_calm w e ≡ true → IsSafe w → IsSafe (step w e)
unfolding step
step-IsSafe w (locks i) calm safe =
    let r = one-le-total resets refl i w.clients in
    move-IsSafe w i _ w.key safe (
      begin_lock-IsMove (client_at i w.clients) w.key safe.count
        (omega (arith, r, safe.none_resets)))
step-IsSafe w (unlocks i) calm safe =
    let r = one-le-total resets refl i w.clients in
    move-IsSafe w i _ w.key safe (
      begin_unlock-IsMove (client_at i w.clients) w.key safe.count
        (omega (arith, r, safe.none_resets)) calm)
step-IsSafe w (acts i o) calm safe =
    let r = one-le-total resets refl i w.clients in
    let t = one-le-total taken refl i w.clients in
    move-IsSafe w i _ _ safe (
      act-IsMove (client_at i w.clients) o w.key calm safe.count (omega (arith, t, safe.shares))
        (omega (arith, r, safe.none_resets)))
step-IsSafe w expires calm safe = absurd cc

run-IsSafe : (w : World) (es : List Event) → calm w es ≡ true → IsSafe w → IsSafe (run w es)
unfolding run calm
run-IsSafe w [] quiet safe = safe
run-IsSafe w (e ∷ es) quiet safe = elim (Bool-cases (is_calm w e)) [
  | inl calm_step ↦
      run-IsSafe (step w e) es (rw calm_step at quiet) (step-IsSafe w e calm_step safe)
  | inr storm ↦ absurd (let f = rw storm at quiet in cc)
]

-- Any number of clients, and no key.
abbrev pub start : ℕ → World
start n = record { key = none; clients = replicate n idle }

start-IsSafe : (n : ℕ) → IsSafe (start n)
start-IsSafe n = record {
  count = refl;
  shares = omega (arith, total-replicate taken refl n);
  one = omega (arith, total-replicate holds refl n);
  none_resets = total-replicate resets refl n;
}

-- Whatever any number of clients do, in any order, and whatever attempts are refused: as long as no
-- answer is lost, the key does not expire, no client that gave up clears it and none calls `UnLock`
-- that does not have the lock, at most one client has it.
pub mutual_exclusion :
    (n : ℕ) (es : List Event) → calm (start n) es ≡ true → holders (run (start n) es).clients ≤ 1
unfolding holders
mutual_exclusion n es quiet = (run-IsSafe (start n) es quiet (start-IsSafe n)).one
