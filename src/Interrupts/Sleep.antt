-- ===== src/Interrupts/Sleep.antt =====
-- The tasks that sleep: which tick wakes them, and when their timer is ready.
use fomos.Common.{ℕ, ◌+◌, ◌≤◌, Option, none, some, List, ◌++◌, map, replicate, length}
use fomos.Interrupts.{wakers_size}

-- Slots that are taken, in a row from the first.
abbrev filled : List ℕ → ℕ → List (Option ℕ)
filled tasks free = map some tasks ++ replicate free none

-- A round whose tasks all have a slot.
abbrev pub HasSlots : List ℕ × List ℕ → Type 0
HasSlots (before, after) = length before + 1 + length after ≤ wakers_size
