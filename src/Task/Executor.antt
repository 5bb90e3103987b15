-- ===== src/Task/Executor.antt =====
-- bootloader/kernel/src/task/executor.rs: the executor. A future is what `poll` makes of it, a
-- function of the waker that it is given and of the rest of the kernel; a waker is the number of
-- the task that it puts into the task queue.
pub mod Ready
pub mod Yield
use fomos.Common.{ℕ, zero, suc, ◌+◌, Bool, true, false, Option, none, some, List, [], ◌∷◌, ◌>>=◌}
use fomos.Task.ArrayQueue.{ArrayQueue}
use fomos.Task.Map.{lookup, insert, remove}

-- What one poll leaves: the future if it is pending, the wakers called, in order, and the kernel.
pub record Polled (Future World : Type 0) : Type 0 where
  pub future : Option Future
  pub woken : List ℕ
  pub world : World

pub record Executor (Future World Queue : Type 0) : Type 0 where
  pub tasks : List (ℕ × Future)
  pub task_queue : Queue
  pub waker_cache : List (ℕ × ℕ)
  pub world : World

-- A loop with an endless run apart from a panic.
pub data Run (A : Type 0) : Type 0 where
  done : A → Run A
  panic out_of_fuel : Run A

-- The waker of the task, made at its first poll.
or_insert : Option ℕ → ℕ → ℕ
or_insert none id = id
or_insert (some waker) id = waker

module _ (queue : ArrayQueue ℕ) where
  open queue use {Queue, push}

  -- `wake_task` for each of the wakers; `none` is the panic of `expect("task_queue full")`.
  unfoldable pub wake_all : Queue → List ℕ → Option Queue
  wake_all q [] = some q
  wake_all q (id ∷ ids) = do q' ← push q id; wake_all q' ids

module _ (queue : ArrayQueue ℕ) {Future World : Type 0} where
  open queue use {Queue, push}

  -- `none` is a panic, of the second task with an id or of `expect("queue full")`.
  unfoldable pub spawn :
      Executor Future World Queue → ℕ → Future → Option (Executor Future World Queue)
  spawn ex id future = elim (lookup id ex.tasks) [
    | some other ↦ none
    | none ↦ do
      task_queue' ← push ex.task_queue id
      some (record ex { tasks = insert id future ex.tasks; task_queue = task_queue' })
  ]

  -- What becomes of the task and of its waker after a poll.
  keep_or_remove : ℕ → ℕ → Option Future → Executor Future World Queue → Executor Future World Queue
  keep_or_remove id waker none ex = record ex {
    tasks = remove id ex.tasks;
    waker_cache = remove id (insert id waker ex.waker_cache);
  }
  keep_or_remove id waker (some future) ex = record ex {
    tasks = insert id future ex.tasks;
    waker_cache = insert id waker ex.waker_cache;
  }

module _ (queue : ArrayQueue ℕ) {Future World : Type 0}
    (poll : Future → ℕ → World → Polled Future World) where
  open queue use {Queue, push, pop}

  -- The body of the loop of `run_ready_tasks`.
  unfoldable pub poll_task : ℕ → Executor Future World Queue → Option (Executor Future World Queue)
  unfolding or_insert keep_or_remove wake_all
  poll_task id ex = elim (lookup id ex.tasks) [
    | none ↦ some ex
    | some future ↦
        let waker = or_insert (lookup id ex.waker_cache) id in
        let polled = poll future waker ex.world in
        wake_all queue ex.task_queue polled.woken >>= λ task_queue'. some (
          keep_or_remove queue id waker polled.future
            (record ex { task_queue = task_queue'; world = polled.world }))
  ]

  unfoldable pub run_ready_tasks :
      ℕ → Executor Future World Queue → Run (Executor Future World Queue)
  unfolding poll_task
  run_ready_tasks zero ex = out_of_fuel
  run_ready_tasks (suc fuel) ex = elim (pop ex.task_queue) [
    | none ↦ done ex
    | some (id, q) ↦ elim (poll_task id (record ex { task_queue = q })) [
      | none ↦ panic
      | some ex' ↦ run_ready_tasks fuel ex'
    ]
  ]

-- Where the source drops the result of `push`, an entry that finds the queue full is lost.
module _ {A : Type 0} (queue : ArrayQueue A) where
  open queue use {Queue, push}

  unfoldable pub push_or_drop : Queue → A → Queue
  push_or_drop q a = elim (push q a) [ none ↦ q | some q' ↦ q' ]

  -- `Spawner::run` and `qpush`, for a task that has its id.
  unfoldable pub spawner_run : Queue → A → Queue
  unfolding push_or_drop
  spawner_run q task = push_or_drop q task

pub data Poll : Type 0 where
  ready pending : Poll

-- `yielders` is YIELDERS, of which an entry is the waker that was registered.
module _ (queue yielders : ArrayQueue ℕ) where
  open queue use {push}

  -- YieldOnce::poll
  unfoldable pub yield_poll : Bool → ℕ → yielders.Queue → Poll × Bool × yielders.Queue
  unfolding push_or_drop
  yield_poll false waker y = (pending, true, push_or_drop yielders y waker)
  yield_poll true waker y = (ready, true, y)

  -- `while let Some(e) = YIELDERS.pop() { e.wake(); }`
  unfoldable pub wake_yielders :
      ℕ → yielders.Queue → queue.Queue → Run (yielders.Queue × queue.Queue)
  wake_yielders zero y q = out_of_fuel
  wake_yielders (suc fuel) y q = elim (yielders.pop y) [
    | none ↦ done (y, q)
    | some (waker, y') ↦ elim (push q waker) [ none ↦ panic | some q' ↦ wake_yielders fuel y' q' ]
  ]
