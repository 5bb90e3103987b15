-- ===== src/Task/Tests.antt =====
-- The executor on a queue of four places and tasks that yield once.
use fomos.Common.{
  ℕ, zero, suc, ◌+◌, ◌≤◌, ◌<◌, ◌≡◌, refl, true, false, Option, none, some, List, [], ◌∷◌, ◌++◌,
  arith, length, ltb, if◌then◌else◌,
}
use fomos.Task.ArrayQueue.{ArrayQueue}
use fomos.Task.Map.{lookup}
use fomos.Task.Executor.{
  Polled, Executor, done, run_ready_tasks, ready, pending, yield_poll, wake_yielders,
}
use fomos.Task.Executor.Ready.{IsValid, run_ready_tasks_lem}
use fomos.Task.Executor.Yield.{yield_poll-wake_yielders}

abbrev list_push : List ℕ → ℕ → Option (List ℕ)
list_push q a = if ltb (length q) 4 then some (q ++ (a ∷ [])) else none

abbrev list_pop : List ℕ → Option (ℕ × List ℕ)
list_pop [] = none
list_pop (a ∷ q) = some (a, q)

list_push-some :
    (q : List ℕ) (a : ℕ)
    → length q < 4
    → (q' : List ℕ) × (list_push q a ≡ some q') × (q' ≡ q ++ (a ∷ [])) × (◌≡◌ {A = ℕ} 4 4)
list_push-some q a h = (q ++ (a ∷ []), ground (arith, h), refl, refl)

list_push-none : (q : List ℕ) (a : ℕ) → 4 ≤ length q → list_push q a ≡ none
list_push-none q a h = ground (arith, h)

list_pop-none : (q : List ℕ) → q ≡ [] → list_pop q ≡ none
list_pop-none q e = rw e refl

list_pop-some :
    (q : List ℕ) (a : ℕ) (rest : List ℕ)
    → q ≡ a ∷ rest
    → (q' : List ℕ) × (list_pop q ≡ some (a, q')) × (q' ≡ rest) × (◌≡◌ {A = ℕ} 4 4)
list_pop-some q a rest e = (rest, rw e refl, refl, refl)

abbrev four_places : ArrayQueue ℕ
four_places = record {
  Queue = List ℕ;
  push = list_push;
  pop = list_pop;
  contents = λ q. q;
  capacity = λ q. 4;
  push-some = list_push-some;
  push-none = list_push-none;
  pop-none = list_pop-none;
  pop-some = list_pop-some;
}

-- A task that wakes itself as long as the number says; the world counts what is left.
abbrev wake_self : ℕ → ℕ → ℕ → Polled ℕ ℕ
wake_self future waker zero = record { future = none; woken = []; world = 0 }
wake_self future waker (suc n) = record { future = some future; woken = waker ∷ []; world = n }

wake_self-spends :
    (future waker world : ℕ)
    → length (wake_self future waker world).woken + (wake_self future waker world).world ≤ world
wake_self-spends future waker zero = omega arith
wake_self-spends future waker (suc n) = omega arith

abbrev two_tasks : Executor ℕ ℕ (List ℕ)
two_tasks = record {
  tasks = (0, 0) ∷ (1, 0) ∷ [];
  task_queue = 0 ∷ 1 ∷ [];
  waker_cache = [];
  world = 2;
}

two_tasks-IsValid : IsValid four_places two_tasks
unfolding lookup
two_tasks-IsValid = record { cached = λ id waker e. cc }

run_ready_tasks_lem_example :
    (ex' : Executor ℕ ℕ (List ℕ)) × (run_ready_tasks four_places wake_self 5 two_tasks ≡ done ex')
    × (ex'.task_queue ≡ [])
    × IsValid four_places ex'
run_ready_tasks_lem_example =
    run_ready_tasks_lem four_places wake_self (λ w. w) wake_self-spends 5 two_tasks
      two_tasks-IsValid (omega arith) (omega arith)

yield_poll-wake_yielders_example :
    (y1 : List ℕ) × (yield_poll four_places four_places false 5 (3 ∷ []) ≡ (pending, true, y1))
    × (y' : List ℕ) × (q' : List ℕ) × (wake_yielders four_places four_places 3 y1 (1 ∷ [])
        ≡ done (y', q'))
    × (q' ≡ 1 ∷ 3 ∷ 5 ∷ [])
    × (yield_poll four_places four_places true 5 y' ≡ (ready, true, y'))
yield_poll-wake_yielders_example =
    yield_poll-wake_yielders four_places four_places 5 3 (3 ∷ []) (1 ∷ []) (omega arith)
      (omega arith) (omega arith)
