-- ===== src/Drivers/VirtioGpu.antt =====
-- bootloader/kernel/src/drivers/virtio_gpu.rs: the requests of the GPU driver and those who wait for
-- their answers. A waker is the number of its task, as in Task/Executor. What the requests are, and in
-- which order `drive` makes them, is in the modules below this one.
pub mod Enums
pub mod Enums3d
pub mod Commands
pub mod Buffer3d
pub mod Wakers
pub mod Requests
pub mod Sent
pub mod Drive
mod Tests
use fomos.Common.{ℕ, Option, none, some, List, [], ◌∷◌, ◌++◌, get_elem?, put, ◌>>=◌}
use fomos.Task.Executor.{Poll, ready, pending}
use fomos.Virtio.{
  Virtqueue, Desc, UsedElem, get_free_twice_desc_id, add_request, set_free_desc_id, read_desc,
}

-- IdWaker
pub data IdWaker : Type 0 where
  nobody done : IdWaker
  waker : ℕ → IdWaker

-- WAKERS
abbrev pub num_wakers : ℕ
num_wakers = 256

-- IdWaker::wake calls the waker, if there is one; the tasks woken stand in order.
unfoldable pub woken_by : IdWaker → List ℕ
woken_by nobody = []
woken_by done = []
woken_by (waker task) = task ∷ []

abbrev pub Wakers : Type 0
Wakers = List IdWaker × List ℕ

-- The body of the loop `'checkall`; `none` is the panic of the index.
unfoldable pub wake_used : UsedElem → Virtqueue → Wakers → Option (Virtqueue × Wakers)
unfolding woken_by
wake_used used q (wakers, woken) = do
  old ← get_elem? wakers used.id
  wakers' ← put wakers used.id done
  some (q, (wakers', woken ++ woken_by old))

-- What IdWait::poll makes of the slot of its id, after registering its own waker `task`.
unfoldable pub poll_slot : IdWaker → ℕ → Poll × IdWaker
poll_slot nobody task = (pending, waker task)
poll_slot done task = (ready, nobody)
poll_slot (waker old) task = (pending, waker task)

unfoldable pub id_wait_poll : ℕ → ℕ → List IdWaker → Option (Poll × List IdWaker)
unfolding poll_slot
id_wait_poll id task wakers = do
  slot ← get_elem? wakers id
  let (answer, slot') = poll_slot slot task
  wakers' ← put wakers id slot'
  some (answer, wakers')

-- `request` up to its wait: `none` is the panic when there are no two descriptors.
start_with : List ℕ → Option (ℕ × ℕ) × Virtqueue → Option (ℕ × ℕ × Virtqueue)
start_with bytes (none, q) = none
start_with bytes (some (desc_id, desc_next_id), q) = do
  q' ← add_request q desc_id desc_next_id bytes
  some (desc_id, desc_next_id, q')

unfoldable pub request_start : Virtqueue → List ℕ → Option (ℕ × ℕ × Virtqueue)
unfolding start_with get_free_twice_desc_id
request_start q bytes = start_with bytes (get_free_twice_desc_id q)

-- `request` after its wait: the descriptor of the answer.
unfoldable pub request_finish : Virtqueue → ℕ → ℕ → Option (Desc × Virtqueue)
unfolding set_free_desc_id
request_finish q desc_id desc_next_id = do
  let q' = set_free_desc_id (set_free_desc_id q desc_id) desc_next_id
  desc ← read_desc q' desc_next_id
  some (desc, q')
