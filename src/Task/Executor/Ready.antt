-- ===== src/Task/Executor/Ready.antt =====
-- `spawn` and `run_ready_tasks`: what they keep, and that the loop over the queue ends.
use fomos.Common.{
  ℕ, zero, suc, ◌+◌, ◌≤◌, ◌<◌, ◌≡◌, refl, sym, ap, ◌∙◌, ◌≢◌, Option, none, some, List, [], ◌∷◌,
  ◌++◌, arith, length, length-append, append-nil, append_assoc, inl, inr, ◌⊎◌, Option-cases,
  Bool-cases, ◌==◌, ==_iff, if◌then◌else◌,
}
use fomos.Task.ArrayQueue.{ArrayQueue}
use fomos.Task.Map.{
  lookup, insert, lookup-remove_self, lookup-remove_ne, lookup-insert_self, lookup-insert_ne,
  lookup-insert,
}
use fomos.Task.Executor.{
  Polled, Executor, done, spawn, wake_all, or_insert, keep_or_remove, poll_task, run_ready_tasks,
}

List-cases : (xs : List ℕ) → (xs ≡ []) ⊎ ((x : ℕ) × (rest : List ℕ) × (xs ≡ x ∷ rest))
List-cases [] = inl refl
List-cases (x ∷ rest) = inr (x, rest, refl)

module _ (queue : ArrayQueue ℕ) where
  open queue use {Queue, push, pop, contents, capacity, push-some, pop-none, pop-some}

  pub wake_all_lem :
      (q : Queue) (ids : List ℕ)
      → length (contents q) + length ids ≤ capacity q
      → (q' : Queue) × (wake_all queue q ids ≡ some q')
        × (contents q' ≡ contents q ++ ids)
        × (capacity q' ≡ capacity q)
  unfolding wake_all
  wake_all_lem q [] h = (q, refl, sym (append-nil (contents q)), refl)
  wake_all_lem q (id ∷ ids) h =
      let (q1, e, c, k) = push-some q id (omega arith) in
      let same = ap length c ∙ length-append (contents q) (id ∷ []) in
      let (q', e', c', k') = wake_all_lem q1 ids (omega (arith, same, k)) in
      (q', rw e e', c' ∙ ap (λ l. l ++ ids) c ∙ append_assoc (contents q) (id ∷ []) ids, k' ∙ k)

module _ (queue : ArrayQueue ℕ) {Future World : Type 0} where
  open queue use {Queue, push, pop, contents, capacity, push-some, pop-none, pop-some}

  -- A waker is cached only for a task that there is, and wakes that task.
  pub record IsValid (ex : Executor Future World Queue) : Type 0 where
    pub cached :
        (id waker : ℕ)
        → lookup id ex.waker_cache ≡ some waker
        → (waker ≡ id) × (future : Future) × (lookup id ex.tasks ≡ some future)

  -- A task with a new id is spawned while the queue has room: it stands among the tasks, its id
  -- last in the queue, the other tasks are as before, and the cache of wakers stays valid.
  pub spawn-IsValid :
      (ex : Executor Future World Queue) (id : ℕ) (future : Future)
      → IsValid ex
      → lookup id ex.tasks ≡ none
      → length (contents ex.task_queue) < capacity ex.task_queue
      → (ex' : Executor Future World Queue) × (spawn queue ex id future ≡ some ex')
        × IsValid ex'
        × ((k : ℕ) → lookup k ex'.tasks ≡ (if id == k then some future else lookup k ex.tasks))
        × (contents ex'.task_queue ≡ contents ex.task_queue ++ (id ∷ []))
  unfolding spawn
  spawn-IsValid ex id future v fresh room =
      let (q', e, c, k) = push-some ex.task_queue id room in
      (
        record ex { tasks = insert id future ex.tasks; task_queue = q' },
        rw (spawn, fresh, e) refl,
        record {
          cached = λ k w found.
              let (own, f, there) = v.cached k w found in
              (
                own,
                f,
                lookup-insert_ne id k future ex.tasks (λ same. cc (same, fresh, there)) ∙ there,
              );
        },
        (λ k. lookup-insert id k future ex.tasks),
        c,
      )

  or_insert-id :
      (ex : Executor Future World Queue) (id : ℕ)
      → IsValid ex
      → or_insert (lookup id ex.waker_cache) id ≡ id
  unfolding or_insert
  or_insert-id ex id v = elim (Option-cases (lookup id ex.waker_cache)) [
    | inl e ↦ rw e
    | inr (w, e) ↦ rw e ((v.cached id w e).0)
  ]

  keep-same :
      (ex : Executor Future World Queue) (id waker : ℕ) (future : Option Future)
      → ((keep_or_remove queue id waker future ex).task_queue ≡ ex.task_queue)
        × ((keep_or_remove queue id waker future ex).world ≡ ex.world)
  unfolding keep_or_remove
  keep-same ex id waker none = (refl, refl)
  keep-same ex id waker (some future) = (refl, refl)

  keep-IsValid :
      (ex : Executor Future World Queue) (id : ℕ) (future : Option Future)
      → IsValid ex
      → IsValid (keep_or_remove queue id id future ex)
  unfolding keep_or_remove
  keep-IsValid ex id none v = record {
    cached = λ k w found. elim (Bool-cases (id == k)) [
      | inl same ↦
          absurd
            (cc ((==_iff id k).0 same, found, lookup-remove_self id (insert id id ex.waker_cache)))
      | inr other ↦
          let ne : id ≢ k = λ e. cc (other, (==_iff id k).1 e) in
          let (own, f, there) = v.cached k w (
            sym (lookup-insert_ne id k id ex.waker_cache ne)
            ∙ sym (lookup-remove_ne id k (insert id id ex.waker_cache) ne)
            ∙ found) in
          (own, f, lookup-remove_ne id k ex.tasks ne ∙ there)
    ];
  }
  keep-IsValid ex id (some future) v = record {
    cached = λ k w found. elim (Bool-cases (id == k)) [
      | inl same ↦
          let eq = (==_iff id k).0 same in
          (
            cc (eq, found, lookup-insert_self id id ex.waker_cache),
            future,
            ap (λ j. lookup j (insert id future ex.tasks)) (sym eq)
                ∙ lookup-insert_self id future ex.tasks,
          )
      | inr other ↦
          let ne : id ≢ k = λ e. cc (other, (==_iff id k).1 e) in
          let (own, f, there) =
            v.cached k w (sym (lookup-insert_ne id k id ex.waker_cache ne) ∙ found) in
          (own, f, lookup-insert_ne id k future ex.tasks ne ∙ there)
    ];
  }

module _ (queue : ArrayQueue ℕ) {Future World : Type 0}
    (poll : Future → ℕ → World → Polled Future World) (budget : World → ℕ)
    (spends : (future : Future) (waker : ℕ) (world : World)
      → length (poll future waker world).woken + budget (poll future waker world).world
        ≤ budget world) where
  open queue use {Queue, push, pop, contents, capacity, push-some, pop-none, pop-some}

  -- The wakes to come, from the queue or from the budget.
  abbrev load : Executor Future World Queue → ℕ
  load ex = length (contents ex.task_queue) + budget ex.world

  poll_task_lem :
      (id : ℕ) (ex : Executor Future World Queue)
      → IsValid queue ex
      → load ex ≤ capacity ex.task_queue
      → (ex' : Executor Future World Queue) × (poll_task queue poll id ex ≡ some ex')
        × IsValid queue ex'
        × (load ex' ≤ load ex)
        × (capacity ex'.task_queue ≡ capacity ex.task_queue)
  unfolding poll_task keep_or_remove
  poll_task_lem id ex v room = elim (Option-cases (lookup id ex.tasks)) [
    | inl gone ↦ (ex, rw (poll_task, gone) refl, v, omega arith, refl)
    | inr (future, there) ↦
        let polled = poll future id ex.world in
        let (q', e, c, k) =
          wake_all_lem queue ex.task_queue polled.woken
            (omega (arith, spends future id ex.world)) in
        let added = ap length c ∙ length-append (contents ex.task_queue) polled.woken in
        let ex1 : Executor Future World Queue = record ex {
          task_queue = q';
          world = polled.world;
        } in
        let (same_queue, same_world) = keep-same queue ex1 id id polled.future in
        (
          keep_or_remove queue id id polled.future ex1,
          rw (poll_task, there, or_insert-id queue ex id v, e) refl,
          keep-IsValid queue ex1 id polled.future (record { cached = v.cached }),
          rw (same_queue, same_world) (omega (arith, added, spends future id ex.world)),
          rw same_queue k,
        )
  ]

  -- `run_ready_tasks` ends, without a panic and with an empty queue, when the tasks that are polled
  -- wake tasks only as often as a budget allows and the queue has room for that.
  pub run_ready_tasks_lem :
      (fuel : ℕ) (ex : Executor Future World Queue)
      → IsValid queue ex
      → length (contents ex.task_queue) + budget ex.world ≤ capacity ex.task_queue
      → length (contents ex.task_queue) + budget ex.world < fuel
      → (ex' : Executor Future World Queue) × (run_ready_tasks queue poll fuel ex ≡ done ex')
        × (contents ex'.task_queue ≡ [])
        × IsValid queue ex'
  unfolding run_ready_tasks
  run_ready_tasks_lem zero ex v room enough = absurd (omega arith)
  run_ready_tasks_lem (suc fuel) ex v room enough = elim (List-cases (contents ex.task_queue)) [
    | inl empty ↦ (ex, rw (run_ready_tasks, pop-none ex.task_queue empty) refl, empty, v)
    | inr (id, ids, e) ↦
        let (q, popped, c, k) = pop-some ex.task_queue id ids e in
        let ex1 : Executor Future World Queue = record ex { task_queue = q } in
        let before = ap length e in
        let after = ap length c in
        let (ex2, polled, v', less, k') =
          poll_task_lem id ex1 (record { cached = v.cached }) (omega (arith, before, after, k)) in
        let (ex', ran, empty, v'') =
          run_ready_tasks_lem fuel ex2 v' (omega (arith, before, after, k, k', less))
            (omega (arith, before, after, less)) in
        (ex', rw (run_ready_tasks, popped, polled) ran, empty, v'')
  ]
