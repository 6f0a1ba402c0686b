-- ===== src/RedisMutex.antt =====
-- The lock of base/dao/redis/redismutex.go: a counter in Redis that clients increment to lock and
-- decrement to unlock.
-- Redis runs one command at a time. A command of a client is answered; or it fails without being
-- run; or it is run and its answer is lost. The waits between the attempts are left out: any client
-- may go next at any time. A client calls `UnLock` whether it has the lock or not, but no operation
-- while it is in another.
mod Total
pub mod Moves
pub mod Safety
pub mod Broken
mod Tests
use gogame.Common.{
  ℕ, zero, suc, ◌+◌, Bool, true, false, List, [], ◌∷◌, Option, none, some, ltb, ◌==◌, if◌then◌else◌,
}

pub data ℤ : Type 0 where
  pos negsuc : ℕ → ℤ

abbrev pub successor : ℤ → ℤ
successor (pos n) = pos (suc n)
successor (negsuc zero) = pos 0
successor (negsuc (suc n)) = negsuc n

abbrev pub predecessor : ℤ → ℤ
predecessor (pos zero) = negsuc 0
predecessor (pos (suc n)) = pos n
predecessor (negsuc n) = negsuc (suc n)

-- The counter, if the key exists; a command takes a missing one for 0.
abbrev pub counter : Option ℤ → ℤ
counter none = pos 0
counter (some v) = v

pub data Command : Type 0 where
  incr decr del expire nothing : Command

abbrev pub execute : Command → Option ℤ → Option ℤ × ℤ
execute incr key = (some (successor (counter key)), successor (counter key))
execute decr key = (some (predecessor (counter key)), predecessor (counter key))
execute del key = (none, pos 0)
execute expire key = (key, pos 0)
execute nothing key = (key, pos 0)

-- `RedisMutexRetryTimes`, and the rounds of `Lock`.
abbrev pub retry_times : ℕ
retry_times = 5

abbrev pub rounds : ℕ
rounds = 150

-- What a client does next: idle; in `Lock`, in a round, after failed attempts, increments, sets the
-- key to expire (with the count it read), decrements, or clears the key when it gives up; holds the
-- lock; in `UnLock`, decrements, or clears the key when the count it read is negative.
pub data Client : Type 0 where
  idle holding : Client
  incrementing decrementing : ℕ → ℕ → Client
  expiring : ℕ → ℤ → Client
  giving_up unlocking resetting : ℕ → Client

abbrev pub command : Client → Command
command idle = nothing
command holding = nothing
command (incrementing i k) = incr
command (decrementing i k) = decr
command (expiring i m) = expire
command (giving_up k) = del
command (unlocking k) = decr
command (resetting k) = del

-- `redisM >= 2`
abbrev pub has_competition : ℤ → Bool
has_competition (pos n) = ltb 1 n
has_competition (negsuc n) = false

abbrev pub is_negative : ℤ → Bool
is_negative (pos n) = false
is_negative (negsuc n) = true

abbrev pub after_expire : ℕ → ℤ → Client
after_expire i m = if has_competition m then decrementing i 0 else holding

-- The client after its command was answered.
unfoldable pub answered : Client → ℤ → Client
answered idle m = idle
answered holding m = holding
answered (incrementing i k) m = expiring i m
answered (expiring i count) m = after_expire i count
answered (decrementing i k) m = if i + 1 == rounds then giving_up 0 else incrementing (i + 1) 0
answered (giving_up k) m = idle
answered (unlocking k) m = if is_negative m then resetting 0 else idle
answered (resetting k) m = idle

-- The client after its command failed: it tries again, and returns the error of the last attempt.
-- That `EXPIRE` fails is not looked at.
unfoldable pub failed : Client → Client
failed idle = idle
failed holding = holding
failed (incrementing i k) = if k + 1 == retry_times then idle else incrementing i (k + 1)
failed (expiring i count) = after_expire i count
failed (decrementing i k) = if k + 1 == retry_times then idle else decrementing i (k + 1)
failed (giving_up k) = if k + 1 == retry_times then idle else giving_up (k + 1)
failed (unlocking k) = if k + 1 == retry_times then idle else unlocking (k + 1)
failed (resetting k) = if k + 1 == retry_times then idle else resetting (k + 1)

pub record World : Type 0 where
  pub key : Option ℤ
  pub clients : List Client

abbrev pub client_at : ℕ → List Client → Client
client_at i [] = idle
client_at zero (c ∷ cs) = c
client_at (suc i) (c ∷ cs) = client_at i cs

abbrev pub set_client : ℕ → Client → List Client → List Client
set_client i c [] = []
set_client zero c (d ∷ cs) = c ∷ cs
set_client (suc i) c (d ∷ cs) = d ∷ set_client i c cs

pub data Outcome : Type 0 where
  answers refuses loses : Outcome

pub data Event : Type 0 where
  locks unlocks : ℕ → Event
  acts : ℕ → Outcome → Event
  expires : Event

abbrev pub begin_lock : Client → Client
begin_lock idle = incrementing 0 0
begin_lock c = c

abbrev pub begin_unlock : Client → Client
begin_unlock holding = unlocking 0
begin_unlock idle = unlocking 0
begin_unlock c = c

-- A client's command with its outcome: the key and the client after it.
unfoldable pub act : Client → Outcome → Option ℤ → Option ℤ × Client
unfolding answered failed
act c answers key = ((execute (command c) key).0, answered c (execute (command c) key).1)
act c refuses key = (key, failed c)
act c loses key = ((execute (command c) key).0, failed c)

unfoldable pub step : World → Event → World
unfolding act
step w (locks i) = record w {
  clients = set_client i (begin_lock (client_at i w.clients)) w.clients;
}
step w (unlocks i) = record w {
  clients = set_client i (begin_unlock (client_at i w.clients)) w.clients;
}
step w (acts i o) =
    let (key, c) = act (client_at i w.clients) o w.key in
    record { key = key; clients = set_client i c w.clients }
step w expires = record w { key = none }

unfoldable pub run : World → List Event → World
unfolding step
run w [] = w
run w (e ∷ es) = run (step w e) es

-- `Validate`: a key that exists and is 0. (The library's reading of a missing key is an error.)
unfoldable pub validate : Option ℤ → Bool
validate none = false
validate (some (pos n)) = n == 0
validate (some (negsuc n)) = false
