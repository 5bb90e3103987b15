-- ===== src/Virtio/Init/Device.antt =====
-- VirtioPciCommonCfg of bootloader/kernel/src/virtio.rs: the registers of a device, which are read and
-- written as volatile memory. What the device does with them is a parameter, with what the virtio
-- specification says of a register that the driver writes.
use fomos.Common.{ℕ, ◌≡◌}

pub record CommonCfg : Type 1 where
  pub State : Type 0
  pub read_status : State → ℕ
  pub write_status : State → ℕ → State
  pub write_feature : State → ℕ → State
  pub num_queues : State → ℕ
  pub select : State → ℕ → State
  pub queue_size : State → ℕ
  pub write_desc : State → ℕ → State
  pub write_driver : State → ℕ → State
  pub write_device : State → ℕ → State
  pub enable : State → State
  pub queue_count : ℕ
  pub num_queues-eq : (s : State) → num_queues s ≡ queue_count
  -- The number of descriptors of each queue, and that of the queue that is selected.
  pub size_of : ℕ → ℕ
  pub size-select : (s : State) (q : ℕ) → queue_size (select s q) ≡ size_of q
  pub size-write_desc : (s : State) (a : ℕ) → queue_size (write_desc s a) ≡ queue_size s
  -- The status changes only when it is written.
  pub status-write_feature : (s : State) (f : ℕ) → read_status (write_feature s f) ≡ read_status s
  pub status-select : (s : State) (q : ℕ) → read_status (select s q) ≡ read_status s
  pub status-write_desc : (s : State) (a : ℕ) → read_status (write_desc s a) ≡ read_status s
  pub status-write_driver : (s : State) (a : ℕ) → read_status (write_driver s a) ≡ read_status s
  pub status-write_device : (s : State) (a : ℕ) → read_status (write_device s a) ≡ read_status s
  pub status-enable : (s : State) → read_status (enable s) ≡ read_status s
