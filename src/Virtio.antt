-- ===== src/Virtio.antt =====
-- bootloader/kernel/src/virtio.rs: the split virtqueues of a device. A `Virtqueue` is one queue as
-- the driver sees it: the three areas that it shares with the device (a pointer of the source is a
-- field), its entry of `last_used_idx` and its `QueueFreeDescs`. `none` is an access outside an
-- area, which the source's raw pointers leave undefined, or the panic of an index.
pub mod Descs
pub mod Ring
pub mod Used
pub mod Request
pub mod Caps
pub mod Init
pub mod Tests
use fomos.Common.{
  ℕ, zero, suc, ◌+◌, ◌%◌, ◌^◌, Option, none, some, List, [], ◌∷◌, get_elem?, put, length, ◌==◌,
  if◌then◌else◌, ◌>>=◌,
}

-- struct Desc
pub record Desc : Type 0 where
  pub addr : ℕ
  pub len : ℕ
  pub flags : ℕ
  pub next : ℕ

-- struct UsedElem
pub record UsedElem : Type 0 where
  pub id : ℕ
  pub len : ℕ

abbrev pub virtq_desc_f_next : ℕ
virtq_desc_f_next = 1

abbrev pub virtq_desc_f_write : ℕ
virtq_desc_f_write = 2

-- `descs`, `driver_*` and `device_*` lie behind `queue_desc`, `queue_driver` and `queue_device`;
-- `memory` is the bytes written at the address of a descriptor.
pub record Virtqueue : Type 0 where
  pub queue_size : ℕ
  pub descs : List Desc
  pub driver_idx : ℕ
  pub driver_ring : List ℕ
  pub device_idx : ℕ
  pub device_ring : List UsedElem
  pub memory : ℕ → List ℕ
  pub last_used_idx : ℕ
  pub free : List ℕ

-- struct Virtio, as far as the queues go
pub record Virtio : Type 0 where
  pub queues : List Virtqueue
  pub selected : ℕ

unfoldable pub queue_select : Virtio → ℕ → Virtio
queue_select virtio q = record virtio { selected = q }

-- A method of `Virtio` works on the queue that is selected, `self.….[self.queue_select as usize]`.
unfoldable pub on_selected :
    {A : Type 0} → (Virtqueue → Option (A × Virtqueue)) → Virtio → Option (A × Virtio)
on_selected method virtio = do
  q ← get_elem? virtio.queues virtio.selected
  (result, q') ← method q
  queues' ← put virtio.queues virtio.selected q'
  some (result, record virtio { queues = queues' })

-- QueueFreeDescs. The head of a list is the end of the `Vec`.
count_up : ℕ → ℕ → List ℕ → List ℕ
count_up zero i free = free
count_up (suc n) i free = count_up n (i + 1) (i ∷ free)

unfoldable pub new_free : ℕ → List ℕ
unfolding count_up
new_free queue_size = count_up queue_size 0 []

unfoldable pub get_free : List ℕ → Option ℕ × List ℕ
get_free [] = (none, [])
get_free (i ∷ free) = (some i, free)

unfoldable pub get_free_twice : List ℕ → Option (ℕ × ℕ) × List ℕ
get_free_twice [] = (none, [])
get_free_twice (i ∷ []) = (none, i ∷ [])
get_free_twice (i ∷ (j ∷ free)) = (some (i, j), free)

unfoldable pub set_free : List ℕ → ℕ → List ℕ
set_free free desc_id = desc_id ∷ free

unfoldable pub get_free_desc_id : Virtqueue → Option ℕ × Virtqueue
unfolding get_free
get_free_desc_id q = let (id, free') = get_free q.free in (id, record q { free = free' })

unfoldable pub get_free_twice_desc_id : Virtqueue → Option (ℕ × ℕ) × Virtqueue
unfolding get_free_twice
get_free_twice_desc_id q =
    let (ids, free') = get_free_twice q.free in (ids, record q { free = free' })

unfoldable pub set_free_desc_id : Virtqueue → ℕ → Virtqueue
unfolding set_free
set_free_desc_id q desc_id = record q { free = set_free q.free desc_id }

-- The index is a `u16` and wraps.
unfoldable pub set_available : Virtqueue → ℕ → Option Virtqueue
set_available q desc_id = do
  ring ← put q.driver_ring (q.driver_idx % q.queue_size) desc_id
  some (record q { driver_ring = ring; driver_idx = (q.driver_idx + 1) % 2 ^ 16 })

unfoldable pub read_desc : Virtqueue → ℕ → Option Desc
read_desc q desc_id = get_elem? q.descs desc_id

write_desc : Virtqueue → ℕ → Desc → Option Virtqueue
write_desc q desc_id desc = do descs' ← put q.descs desc_id desc; some (record q { descs = descs' })

unfoldable pub set_writable : Virtqueue → ℕ → Option Virtqueue
unfolding read_desc write_desc
set_writable q desc_id = do
  desc ← read_desc q desc_id
  write_desc q desc_id (record desc { flags = virtq_desc_f_write; len = 4096 })

unfoldable pub set_writable_available : Virtqueue → ℕ → Option Virtqueue
set_writable_available q desc_id = do q' ← set_writable q desc_id; set_available q' desc_id

-- The request is its bytes; `desc.len` is a `u32`.
unfoldable pub add_request : Virtqueue → ℕ → ℕ → List ℕ → Option Virtqueue
unfolding read_desc write_desc
add_request q desc_id desc_next_id bytes = do
  desc ← read_desc q desc_id
  let written : Virtqueue = record q { memory = λ a. if a == desc.addr then bytes else q.memory a }
  q' ←
      write_desc written desc_id (record desc {
        len = length bytes % 2 ^ 32;
        flags = virtq_desc_f_next;
        next = desc_next_id;
      })
  q'' ← set_writable q' desc_next_id
  set_available q'' desc_id

unfoldable pub next_used : Virtqueue → Option (Option UsedElem × Virtqueue)
next_used q =
    let next = (q.last_used_idx + 1) % 2 ^ 16 in
    if next == q.device_idx then some (none, q) else do
      elem ← get_elem? q.device_ring (next % q.queue_size)
      some (some elem, record q { last_used_idx = next })
