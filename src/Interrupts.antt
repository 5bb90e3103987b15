-- ===== src/Interrupts.antt =====
-- bootloader/kernel/src/interrupts.rs: the clock, and the wakers of the tasks that wait for its next
-- tick. A waker is the number of its task, as in Task/Executor. The lock of WAKERS is held for one
-- call at a time, so that each function here is one step.
pub mod Sleep
mod Tests
use fomos.Common.{
  ℕ, zero, suc, ◌+◌, ◌%◌, ◌^◌, Bool, true, false, Option, none, some, List, [], ◌∷◌, ◌++◌, map,
  replicate, leb, if◌then◌else◌, ◌==◌, ◌>>=◌,
}
use fomos.Task.Executor.{Poll, ready, pending}

-- TIME_MS and WAKERS
pub record Timers : Type 0 where
  pub time_ms : ℕ
  pub wakers : List (Option ℕ)

abbrev pub wakers_size : ℕ
wakers_size = 128

unfoldable pub new : Timers
new = record { time_ms = 0; wakers = replicate wakers_size none }

-- The tasks in the slots, in their order.
unfoldable pub woken : List (Option ℕ) → List ℕ
woken [] = []
woken (none ∷ slots) = woken slots
woken (some task ∷ slots) = task ∷ woken slots

-- `lapic_timer`: the clock after the tick, and the tasks that the tick wakes. Nothing registers
-- with WAKER, which it wakes as well.
unfoldable pub lapic_timer : Timers → List ℕ × Timers
unfolding woken
lapic_timer t = (
  woken t.wakers,
  record { time_ms = (t.time_ms + 1) % 2 ^ 64; wakers = map (λ _. none) t.wakers },
)

-- The loop of `add_waker` from slot `index` on: the slot that it takes, or 0 when it finds none.
unfoldable pub add_from : ℕ → ℕ → List (Option ℕ) → ℕ × List (Option ℕ)
add_from index task [] = (0, [])
add_from index task (none ∷ slots) = (index, some task ∷ slots)
add_from index task (some other ∷ slots) =
    let (id, slots') = add_from (index + 1) task slots in (id, some other ∷ slots')

unfoldable pub add_waker : Timers → ℕ → ℕ × Timers
unfolding add_from
add_waker t task =
    let (id, wakers') = add_from 0 task t.wakers in (id, record t { wakers = wakers' })

-- Timer::new gives the time at which the timer stops.
unfoldable pub timer_new : Timers → ℕ → ℕ
timer_new t ms = (t.time_ms + ms) % 2 ^ 64

-- `n` ticks, and the tasks that they wake.
unfoldable pub ticks : ℕ → Timers → List ℕ × Timers
unfolding lapic_timer
ticks zero t = ([], t)
ticks (suc n) t =
    let (now, t') = lapic_timer t in let (later, t'') = ticks n t' in (now ++ later, t'')

-- `Timer::poll`, with `before` ticks between its first test and `add_waker`, and `after` between that
-- and its second test.
unfoldable pub poll : ℕ → ℕ → ℕ → ℕ → Timers → Poll × List ℕ × Timers
unfolding add_waker ticks
poll before after stop task t =
    let (early, t1) = ticks before t in
    let (id, t2) = add_waker t1 task in
    let (late, t3) = ticks after t2 in
    if leb stop t.time_ms
    then (ready, [], t)
    else ((if leb stop t3.time_ms then ready else pending), early ++ late, t3)

unfoldable pub register_all : Timers → List ℕ → Timers
register_all t [] = t
register_all t (task ∷ tasks) = let (id, t') = add_waker t task in register_all t' tasks

unfoldable pub mem : ℕ → List ℕ → Bool
mem a [] = false
mem a (x ∷ xs) = if a == x then true else mem a xs

-- A poll that is pending is followed by another if the tick wakes the task.
unfoldable pub after_poll : Poll → Bool → Option ℕ → Option ℕ
after_poll ready is_woken later = some 0
after_poll pending true later = later >>= λ n. some (n + 1)
after_poll pending false later = none

-- `a_sleep` until `stop`, as the executor runs it: between two ticks the tasks `before` register, the
-- task is polled, and the tasks `after` register; it is polled again only if the tick wakes it. The
-- result is the number of ticks that it slept; `none` is a task that nothing wakes.
unfoldable pub sleep : ℕ → ℕ → Timers → List (List ℕ × List ℕ) → Option ℕ
unfolding after_poll
sleep stop task t [] = none
sleep stop task t ((before, after) ∷ rounds) =
    let (answer, woken, t1) = poll 0 0 stop task (register_all t before) in
    let (now, t2) = lapic_timer (register_all t1 after) in
    after_poll answer (mem task now) (sleep stop task t2 rounds)

unfoldable pub a_sleep : ℕ → ℕ → Timers → List (List ℕ × List ℕ) → Option ℕ
unfolding timer_new
a_sleep ms task t rounds = sleep (timer_new t ms) task t rounds
