-- ===== src/Virtio/Init.antt =====
-- bootloader/kernel/src/virtio.rs, `Virtio::init`: from the status of the device to its queues, once
-- the structures are found.
pub mod Device
pub mod Queues
pub mod Status
mod Tests
use Prim.Native.Nat.{bit_and, bit_or}
use fomos.Common.{
  ℕ, zero, suc, ◌+◌, ◌-◌, ◌^◌, Option, none, some, List, [], ◌∷◌, ◌==◌, if◌then◌else◌, ◌>>=◌,
}
use fomos.Virtio.{Desc, virtq_desc_f_write, new_free}
use fomos.Virtio.Caps.{DeviceType, input, gpu}
use Device.{CommonCfg}

-- What `init` leaves behind for a queue: the three areas with the flags in the second, which stop the
-- interrupts, the descriptors and their free list, and the index before the first entry.
pub record Queue : Type 0 where
  pub queue_desc : ℕ
  pub queue_driver : ℕ
  pub queue_device : ℕ
  pub driver_flags : ℕ
  pub descs : List Desc
  pub free : List ℕ
  pub last_used_idx : ℕ

abbrev pub status_acknowledge : ℕ
status_acknowledge = 1

abbrev pub status_driver : ℕ
status_driver = 2

abbrev pub status_driver_ok : ℕ
status_driver_ok = 4

abbrev pub status_feature_ok : ℕ
status_feature_ok = 8

unfoldable pub driver_feature : DeviceType → ℕ
driver_feature gpu = 3
driver_feature input = 0

-- `create_identity_virt_from_phys(..).unwrap()`: a frame under its own address, the next of those
-- that the allocator has (Memory/Frames), or a panic.
abbrev pub next_frame : List ℕ → Option (ℕ × List ℕ)
next_frame [] = none
next_frame (a ∷ frames) = some (a, frames)

-- `for idesc in 0..qsize`
unfoldable pub write_descs : ℕ → List ℕ → Option (List Desc × List ℕ)
write_descs zero frames = some ([], frames)
write_descs (suc n) frames = do
  (addr, frames1) ← next_frame frames
  (descs, frames2) ← write_descs n frames1
  some (
    record { addr = addr; len = 4096; flags = virtq_desc_f_write; next = 0xffff } ∷ descs,
    frames2,
  )

module _ (cfg : CommonCfg) where
  open cfg use {
    State, read_status, write_status, write_feature, num_queues, select, queue_size, write_desc,
    write_driver, write_device, enable,
  }

  unfoldable pub add_status : State → ℕ → State
  add_status s bit = write_status s (bit_or (read_status s) bit)

  -- Up to the features; `none` is the panic when the device refuses them.
  unfoldable pub negotiate : DeviceType → State → Option State
  unfolding add_status driver_feature
  negotiate device_type s =
      let s1 = write_status s 0 in
      let s2 = add_status s1 status_acknowledge in
      let s3 = add_status s2 status_driver in
      let s4 = write_feature s3 (driver_feature device_type) in
      let s5 = add_status s4 status_feature_ok in
      if bit_and (read_status s5) status_feature_ok == 0 then none else some s5

  -- The body of the loop over the queues.
  unfoldable pub init_queue : ℕ → List ℕ → State → Option (Queue × List ℕ × State)
  init_queue q frames s = do
    let s1 = select s q
    let free = new_free (queue_size s1)
    (desc, frames1) ← next_frame frames
    let s2 = write_desc s1 desc
    (descs, frames2) ← write_descs (queue_size s2) frames1
    (driver, frames3) ← next_frame frames2
    let s3 = write_driver s2 driver
    (device, frames4) ← next_frame frames3
    let s4 = write_device s3 device
    let queue : Queue = record {
      queue_desc = desc;
      queue_driver = driver;
      queue_device = device;
      descs = descs;
      free = free;
      driver_flags = 1;
      last_used_idx = 2 ^ 16 - 1;
    }
    some (queue, frames4, enable s4)

  unfoldable pub init_queues : ℕ → ℕ → List ℕ → State → Option (List Queue × List ℕ × State)
  init_queues q zero frames s = some ([], frames, s)
  init_queues q (suc n) frames s = do
    (queue, frames1, s1) ← init_queue q frames s
    (queues, frames2, s2) ← init_queues (q + 1) n frames1 s1
    some (queue ∷ queues, frames2, s2)

  unfoldable pub init : DeviceType → List ℕ → State → Option (List Queue × List ℕ × State)
  init device_type frames s = do
    s1 ← negotiate device_type s
    (queues, frames1, s2) ← init_queues 0 (num_queues s1) frames s1
    some (queues, frames1, select (add_status s2 status_driver_ok) 0)
