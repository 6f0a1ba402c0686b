-- ===== src/Session/Limit.antt =====
-- The limit on received messages of base/network/session/session.go.
use gogame.Common.{ℕ, suc, ◌+◌, ◌*◌, ◌≤◌, ◌<◌, ◌≡◌, inl, inr, arith, Bool, true, false}
use gogame.Common.{
  List, [], ◌∷◌, length, ltb, ◌==◌, Bool-cases, if◌then◌else◌, ne→==, ltb→lt, ltb_false→le,
}
use mathlib.Core.Path.{subst}
use gogame.Session.{Session, second, receive_limit}

-- Messages arrive at the times given; a session that has passed its limit is shut down, so that
-- only the runs matter in which every message is let through.
unfoldable pub receive_all : List ℕ → Session → Session × Bool
receive_all [] s = (s, true)
receive_all (now ∷ times) s =
    let (s', over) = receive_limit now s in
    let rest = receive_all times s' in if over then (s', false) else rest

-- The count of messages as seconds that have passed since `t0` and a remainder.
record IsCounted (limit t0 n : ℕ) (s : Session) : Type 0 where
  periods : ℕ
  limited : s.limit_per_second ≡ limit
  counted : n ≡ (limit + 1) * periods + s.last_count
  below : s.last_count ≤ limit
  passed : t0 + periods * second ≤ s.last_time

receive_limit-IsCounted :
    (limit t0 n now : ℕ) (s : Session)
    → 0 < limit
    → IsCounted limit t0 n s
    → (receive_limit now s).1 ≡ false
    → IsCounted limit t0 (n + 1) (receive_limit now s).0
unfolding receive_limit
receive_limit-IsCounted limit t0 n now s some_limit c through =
    let limited : (s.limit_per_second == 0) ≡ false =
      ne→== s.limit_per_second 0 (λ e. omega (arith, c.limited)) in
    elim (Bool-cases (ltb s.limit_per_second (s.last_count + 1))) [
      | inr under ↦
          rw (limited, under)
            (record {
              periods = c.periods;
              limited = c.limited;
              counted = omega (arith, c.counted);
              below = omega (arith, ltb_false→le _ _ under, c.limited);
              passed = c.passed;
            })
      | inl above ↦ elim (Bool-cases (ltb now (s.last_time + second))) [
        | inl soon ↦ absurd (let t = rw (limited, above, soon) at through in cc)
        | inr late ↦
            rw (limited, above, late)
              (record {
                periods = suc c.periods;
                limited = c.limited;
                counted = omega (arith, c.counted, c.below, c.limited, ltb→lt _ _ above);
                below = omega arith;
                passed = omega (arith, c.passed, ltb_false→le _ _ late);
              })
      ]
    ]

receive_all-IsCounted :
    (limit t0 n : ℕ) (times : List ℕ) (s : Session)
    → 0 < limit
    → IsCounted limit t0 n s
    → (receive_all times s).1 ≡ true
    → IsCounted limit t0 (n + length times) (receive_all times s).0
unfolding receive_all
receive_all-IsCounted limit t0 n [] s some_limit c through =
    subst (λ k. IsCounted limit t0 k s) (let e : n ≡ n + 0 = omega arith in e) c
receive_all-IsCounted limit t0 n (now ∷ times) s some_limit c through =
    elim (Bool-cases (receive_limit now s).1) [
      | inl over ↦ absurd (let t = rw over at through in cc)
      | inr under ↦ rw under (
          subst (λ k. IsCounted limit t0 k (receive_all times (receive_limit now s).0).0)
            (let e : n + 1 + length times ≡ n + suc (length times) = omega arith in e)
            (receive_all-IsCounted limit t0 (n + 1) times (receive_limit now s).0 some_limit
              (receive_limit-IsCounted limit t0 n now s some_limit c under) (rw under at through)))
    ]

-- A session that starts its count at the time `t0` and lets a run of messages through has let
-- through at most `limit + 1` for each second that passed up to its last reset, and `limit` since.
pub rate_bound :
    (limit : ℕ) (times : List ℕ) (s : Session)
    → 0 < limit
    → s.limit_per_second ≡ limit
    → s.last_count ≡ 0
    → (receive_all times s).1 ≡ true
    → (periods : ℕ) × (s.last_time + periods * second ≤ (receive_all times s).0.last_time)
      × (length times ≤ (limit + 1) * periods + limit)
rate_bound limit times s some_limit limited fresh through =
    let c =
      receive_all-IsCounted limit s.last_time 0 times s some_limit
        (record {
          periods = 0;
          limited = limited;
          counted = omega arith;
          below = omega arith;
          passed = omega arith;
        })
        through in
    (c.periods, c.passed, omega (arith, c.counted, c.below))

-- The message after the first `limit` since a reset is over the limit if a second has not passed.
pub burst_stopped :
    (now : ℕ) (s : Session)
    → 0 < s.limit_per_second
    → s.limit_per_second ≤ s.last_count
    → now < s.last_time + second
    → (receive_limit now s).1 ≡ true
unfolding receive_limit
burst_stopped now s some_limit full soon = ground arith
