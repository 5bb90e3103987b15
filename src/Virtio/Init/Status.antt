-- ===== src/Virtio/Init/Status.antt =====
-- The status that a device has in the end of `init`, with its queues.
use Prim.Native.Nat.{bit_and}
use fomos.Common.{ℕ, ◌≡◌, refl, none, List, ◌++◌, length}
use fomos.Virtio.Caps.{DeviceType}
use fomos.Virtio.Init.Device.{CommonCfg}
use fomos.Virtio.Init.{Queue, add_status, negotiate, init, driver_feature}
use fomos.Virtio.Init.Queues.{frames_of_all, AreQueues}

module _ (cfg : CommonCfg) where
  open cfg use {State, read_status, write_status}

  -- The device takes over each status that is written.
  abbrev pub Accepts : Type 0
  Accepts = (s : State) (v : ℕ) → read_status (write_status s v) ≡ v

  -- The device when the features have been written.
  abbrev offered : DeviceType → State → State
  offered device_type s =
      add_status cfg
        (cfg.write_feature (add_status cfg (add_status cfg (write_status s 0) 1) 2)
          (driver_feature device_type))
        8

  -- What `init` leaves: the device is acknowledged, has a driver, its features and the driver's
  -- readiness, all four bits and no other; there is a queue for each that it has, and the areas and
  -- descriptors of all of them are the frames that were taken, each frame for one.
  pub record IsInit (frames : List ℕ) (queues : List Queue) (rest : List ℕ) (s' : State)
      : Type 0 where
    pub status : read_status s' ≡ 15
    pub count : length queues ≡ cfg.queue_count
    pub are_queues : AreQueues cfg 0 queues
    pub taken : frames_of_all queues ++ rest ≡ frames

  -- A device that never shows the bit for its features ends `init` with a panic.
  pub init-refused :
      (device_type : DeviceType) (frames : List ℕ) (s : State)
      → ((s : State) (v : ℕ) → bit_and (read_status (write_status s v)) 8 ≡ 0)
      → init cfg device_type frames s ≡ none
  unfolding init negotiate add_status
  init-refused device_type frames s refuses = rw (refuses _ _) refl
