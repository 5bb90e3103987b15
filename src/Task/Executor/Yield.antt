-- ===== src/Task/Executor/Yield.antt =====
-- `yield_once`: a task that gives up its turn is queued again, unless YIELDERS is full.
use fomos.Common.{
  ℕ, zero, suc, ◌+◌, ◌≤◌, ◌<◌, ◌≡◌, refl, sym, ap, ◌∙◌, true, false, List, [], ◌∷◌, ◌++◌, arith,
  length, length-append, append-nil, append_assoc,
}
use fomos.Task.ArrayQueue.{ArrayQueue}
use fomos.Task.Executor.{done, ready, pending, push_or_drop, yield_poll, wake_yielders}

module _ (queue yielders : ArrayQueue ℕ) where
  open queue use {contents, capacity, push-some}

  wake_all_yielders :
      (ids : List ℕ) (fuel : ℕ) (y : yielders.Queue) (q : queue.Queue)
      → yielders.contents y ≡ ids
      → length (contents q) + length ids ≤ capacity q
      → length ids < fuel
      → (y' : yielders.Queue) × (q' : queue.Queue) × (wake_yielders queue yielders fuel y q
          ≡ done (y', q'))
        × (yielders.contents y' ≡ [])
        × (contents q' ≡ contents q ++ ids)
  unfolding wake_yielders
  wake_all_yielders ids zero y q e room enough = absurd (omega arith)
  wake_all_yielders [] (suc fuel) y q e room enough =
      (y, q, rw (wake_yielders, yielders.pop-none y e) refl, e, sym (append-nil (contents q)))
  wake_all_yielders (id ∷ ids) (suc fuel) y q e room enough =
      let (y1, popped, c, _) = yielders.pop-some y id ids e in
      let (q1, pushed, d, k) = push-some q id (omega arith) in
      let longer = ap length d ∙ length-append (contents q) (id ∷ []) in
      let (y', q', run, empty, all) =
        wake_all_yielders ids fuel y1 q1 c (omega (arith, longer, k)) (omega arith) in
      (
        y',
        q',
        rw (wake_yielders, popped, pushed) run,
        empty,
        all ∙ ap (λ l. l ++ ids) d ∙ append_assoc (contents q) (id ∷ []) ids,
      )

  -- A task that yields is pending at its first poll and ready at its second, and the loop over
  -- YIELDERS in between ends and puts the task into the task queue, after those that yielded
  -- before it: if YIELDERS has room for one more and the task queue for all of them.
  pub yield_poll-wake_yielders :
      (waker fuel : ℕ) (y : yielders.Queue) (q : queue.Queue)
      → length (yielders.contents y) < yielders.capacity y
      → length (contents q) + length (yielders.contents y) + 1 ≤ capacity q
      → length (yielders.contents y) + 1 < fuel
      → (y1 : yielders.Queue) × (yield_poll queue yielders false waker y ≡ (pending, true, y1))
        × (y' : yielders.Queue) × (q' : queue.Queue) × (wake_yielders queue yielders fuel y1 q
            ≡ done (y', q'))
        × (contents q' ≡ contents q ++ (yielders.contents y ++ (waker ∷ [])))
        × (yield_poll queue yielders true waker y' ≡ (ready, true, y'))
  unfolding yield_poll push_or_drop
  yield_poll-wake_yielders waker fuel y q room place enough =
      let (y1, pushed, c, _) = yielders.push-some y waker room in
      let longer = length-append (yielders.contents y) (waker ∷ []) in
      let (y', q', run, empty, all) =
        wake_all_yielders (yielders.contents y ++ (waker ∷ [])) fuel y1 q c (omega (arith, longer))
          (omega (arith, longer)) in
      (y1, rw (yield_poll, push_or_drop, pushed) refl, y', q', run, all, refl)
