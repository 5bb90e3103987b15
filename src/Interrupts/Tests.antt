-- ===== src/Interrupts/Tests.antt =====
-- The clock on concrete tasks.
use fomos.Common.{ℕ, ◌≡◌, refl, none, some, List, [], ◌∷◌, map, replicate}
use fomos.Task.Executor.{ready}
use fomos.Interrupts.{Timers, wakers_size, poll}

-- Three rounds, in which other tasks register before and after task 7.
abbrev rounds : List (List ℕ × List ℕ)
rounds = (1 ∷ 2 ∷ [], []) ∷ ([], 3 ∷ []) ∷ ([], []) ∷ []

abbrev busy : Timers
busy = record { time_ms = 5; wakers = map some (replicate wakers_size 1) }

-- A tick between the two tests of the poll.
late_tick :
    poll 0 1 6 7 (record { time_ms = 5; wakers = none ∷ [] })
    ≡ (ready, 7 ∷ [], record { time_ms = 6; wakers = none ∷ [] })
unfolding poll
late_tick = refl
