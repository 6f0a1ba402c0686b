-- ===== src/RedisMutex/Tests.antt =====
-- The lock of base/dao/redis/redismutex.go with three clients.
use gogame.Common.{◌≡◌, ◌≤◌, refl, List, [], ◌∷◌, some, true}
use gogame.RedisMutex.{World, Event, pos, locks, unlocks, acts, answers, refuses, run, client_at}
use gogame.RedisMutex.{holding, giving_up, incrementing}
use gogame.RedisMutex.Safety.{calm, start, holders, mutual_exclusion}

-- Client 0 locks, client 1 tries and is refused once; client 0 unlocks, and client 1 locks.
abbrev history : List Event
history =
    locks 0
    ∷ locks 1
    ∷ acts 0 answers
    ∷ acts 1 refuses
    ∷ acts 0 answers
    ∷ acts 1 answers
    ∷ acts 1 answers
    ∷ acts 1 answers
    ∷ unlocks 0
    ∷ acts 0 answers
    ∷ acts 1 answers
    ∷ acts 1 answers
    ∷ []

history_held : client_at 1 (run (start 3) history).clients ≡ holding
unfolding run
history_held = refl

history-calm : calm (start 3) history ≡ true
unfolding run calm
history-calm = refl

mutual_exclusion_example : holders (run (start 3) history).clients ≤ 1
mutual_exclusion_example = mutual_exclusion 3 history history-calm

-- A client whose `Lock` was refused calls `UnLock` all the same: two clients have the lock.
abbrev unlocked_after_failure : List Event
unlocked_after_failure =
    locks 0
    ∷ acts 0 answers
    ∷ acts 0 answers
    ∷ locks 1
    ∷ acts 1 refuses
    ∷ acts 1 refuses
    ∷ acts 1 refuses
    ∷ acts 1 refuses
    ∷ acts 1 refuses
    ∷ unlocks 1
    ∷ acts 1 answers
    ∷ locks 1
    ∷ acts 1 answers
    ∷ acts 1 answers
    ∷ []

both_hold : (run (start 2) unlocked_after_failure).clients ≡ holding ∷ holding ∷ []
unfolding run
both_hold = refl

abbrev crowded : World
crowded = record { key = some (pos 1); clients = holding ∷ giving_up 0 ∷ incrementing 0 0 ∷ [] }
