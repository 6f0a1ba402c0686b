-- ===== src/RedisMutex/Moves.antt =====
-- What the commands of base/dao/redis/redismutex.go do to a client's share in the counter.
use gogame.Common.{ℕ, zero, suc, ◌+◌, ◌≤◌, ◌≡◌, refl, arith, Bool, true, false, Option, none, some}
use gogame.Common.{◌≢◌, ◌⊎◌, inl, inr, if◌then◌else◌, Bool-cases}
use gogame.RedisMutex.{
  ℤ, pos, negsuc, Client, idle, holding, incrementing, decrementing, expiring, giving_up,
}
use gogame.RedisMutex.{unlocking, resetting, Outcome, answers}
use gogame.RedisMutex.{refuses, loses, act, after_expire, answered, failed}
use gogame.RedisMutex.{has_competition, begin_lock, begin_unlock}

-- The share of a client in the counter.
abbrev pub taken : Client → ℕ
taken idle = 0
taken holding = 1
taken (incrementing i k) = 0
taken (decrementing i k) = 1
taken (expiring i m) = 1
taken (giving_up k) = 0
taken (unlocking k) = 1
taken (resetting k) = 0

-- Whether a client has the lock: it read 1 and has not unlocked yet.
abbrev pub holds : Client → ℕ
holds idle = 0
holds holding = 1
holds (incrementing i k) = 0
holds (decrementing i k) = 0
holds (expiring i m) = if has_competition m then 0 else 1
holds (giving_up k) = 0
holds (unlocking k) = 1
holds (resetting k) = 0

-- Whether a client is about to clear the key because it read a negative count.
abbrev pub resets : Client → ℕ
resets (resetting k) = 1
resets _ = 0

-- A client that holds the lock, or is in an operation.
abbrev pub is_busy : Client → Bool
is_busy idle = false
is_busy c = true

-- No answer is lost, no key expires, and no client that gave up clears the key.
abbrev pub is_calm_for : Client → Outcome → Bool
is_calm_for (giving_up k) o = false
is_calm_for c loses = false
is_calm_for c answers = true
is_calm_for c refuses = true

abbrev pub level : Option ℤ → ℕ
level none = 0
level (some (pos n)) = n
level (some (negsuc n)) = 0

abbrev pub is_count : Option ℤ → Bool
is_count (some (negsuc n)) = false
is_count _ = true

-- A client's command, by the client's state and the key.
pub record IsMove (c c' : Client) (key key' : Option ℤ) : Type 0 where
  pub count : is_count key' ≡ true
  pub shares : level key + taken c' ≤ level key' + taken c
  pub one : (holds c' ≤ holds c) ⊎ ((level key ≡ 0) × (holds c' ≤ 1))
  pub none_resets : resets c' ≡ 0

pub holds-le-taken : (c : Client) → holds c ≤ taken c
holds-le-taken idle = omega arith
holds-le-taken holding = omega arith
holds-le-taken (incrementing i k) = omega arith
holds-le-taken (decrementing i k) = omega arith
holds-le-taken (expiring i m) = ground arith
holds-le-taken (giving_up k) = omega arith
holds-le-taken (unlocking k) = omega arith
holds-le-taken (resetting k) = omega arith

still : (c : Client) (key : Option ℤ) → is_count key ≡ true → resets c ≡ 0 → IsMove c c key key
still c key e r = record {
  count = e;
  shares = omega arith;
  one = inl (omega arith);
  none_resets = r;
}

after_expire-IsMove :
    (i k : ℕ) (m : ℤ) (key : Option ℤ)
    → is_count key ≡ true
    → IsMove (expiring i m) (after_expire i m) key key
after_expire-IsMove i k m key e = elim (Bool-cases (has_competition m)) [
  | inl many ↦
      rw many
        (record { count = e; shares = omega arith; one = inl (omega arith); none_resets = refl })
  | inr alone ↦ rw alone (record {
    count = e;
    shares = omega arith;
    one = inl (ground (arith, alone));
    none_resets = refl;
  })
]

-- A failed attempt leaves the key alone.
failed-IsMove :
    (c : Client) (key : Option ℤ)
    → is_calm_for c refuses ≡ true
    → is_count key ≡ true
    → resets c ≡ 0
    → IsMove c (failed c) key key
unfolding failed
failed-IsMove idle key calm e r = still idle key e refl
failed-IsMove holding key calm e r = still holding key e refl
failed-IsMove (incrementing i k) key calm e r = record {
  count = e;
  shares = ground arith;
  one = inl (ground arith);
  none_resets = ground arith;
}
failed-IsMove (decrementing i k) key calm e r = record {
  count = e;
  shares = ground arith;
  one = inl (ground arith);
  none_resets = ground arith;
}
failed-IsMove (expiring i m) key calm e r = after_expire-IsMove i 0 m key e
failed-IsMove (unlocking k) key calm e r = record {
  count = e;
  shares = ground arith;
  one = inl (ground arith);
  none_resets = ground arith;
}
failed-IsMove (giving_up k) key calm e r = absurd cc
failed-IsMove (resetting k) key calm e r = absurd (omega arith)

-- An increment, from a counter that is not negative.
increment-IsMove :
    (i k : ℕ) (key : Option ℤ)
    → is_count key ≡ true
    → let (key', c) = act (incrementing i k) answers key in IsMove (incrementing i k) c key key'
unfolding act answered
increment-IsMove i k none e = record {
  count = refl;
  shares = omega arith;
  one = inr (refl, ground arith);
  none_resets = refl;
}
increment-IsMove i k (some (pos zero)) e = record {
  count = refl;
  shares = omega arith;
  one = inr (refl, ground arith);
  none_resets = refl;
}
increment-IsMove i k (some (pos (suc n))) e = record {
  count = refl;
  shares = omega arith;
  one = inl (ground arith);
  none_resets = refl;
}
increment-IsMove i k (some (negsuc n)) e = absurd cc

answered-IsMove :
    (c : Client) (key : Option ℤ)
    → is_calm_for c answers ≡ true
    → is_count key ≡ true
    → taken c ≤ level key
    → resets c ≡ 0
    → IsMove c (act c answers key).1 key (act c answers key).0
unfolding act answered
answered-IsMove idle key calm e t r = still idle key e refl
answered-IsMove holding key calm e t r = still holding key e refl
answered-IsMove (incrementing i k) key calm e t r = increment-IsMove i k key e
answered-IsMove (expiring i m) key calm e t r = after_expire-IsMove i 0 m key e
answered-IsMove (decrementing i k) (some (pos (suc n))) calm e t r = record {
  count = refl;
  shares = ground arith;
  one = inl (ground arith);
  none_resets = ground arith;
}
answered-IsMove (decrementing i k) key calm e t r = absurd (ground arith)
answered-IsMove (unlocking k) (some (pos (suc n))) calm e t r = record {
  count = refl;
  shares = omega arith;
  one = inl (omega arith);
  none_resets = refl;
}
answered-IsMove (unlocking k) key calm e t r = absurd (ground arith)
answered-IsMove (giving_up k) key calm e t r = absurd cc
answered-IsMove (resetting k) key calm e t r = absurd (omega arith)

pub act-IsMove :
    (c : Client) (o : Outcome) (key : Option ℤ)
    → is_calm_for c o ≡ true
    → is_count key ≡ true
    → taken c ≤ level key
    → resets c ≡ 0
    → IsMove c (act c o key).1 key (act c o key).0
act-IsMove c answers key calm e t r = answered-IsMove c key calm e t r
act-IsMove c refuses key calm e t r = unfold act in failed-IsMove c key calm e r
act-IsMove c loses key calm e t r = absurd (lost c calm)
  where
    lost : (d : Client) → is_calm_for d loses ≢ true
    lost (giving_up k) = λ f. cc
    lost _ = λ f. cc

pub begin_lock-IsMove :
    (c : Client) (key : Option ℤ)
    → is_count key ≡ true
    → resets c ≡ 0
    → IsMove c (begin_lock c) key key
begin_lock-IsMove idle key e r = record {
  count = e;
  shares = omega arith;
  one = inl (omega arith);
  none_resets = refl;
}
begin_lock-IsMove c key e r = still c key e r

pub begin_unlock-IsMove :
    (c : Client) (key : Option ℤ)
    → is_count key ≡ true
    → resets c ≡ 0
    → is_busy c ≡ true
    → IsMove c (begin_unlock c) key key
begin_unlock-IsMove idle key e r busy = absurd cc
begin_unlock-IsMove holding key e r busy = record {
  count = e;
  shares = omega arith;
  one = inl (omega arith);
  none_resets = refl;
}
begin_unlock-IsMove c key e r busy = still c key e r
