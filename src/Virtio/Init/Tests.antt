-- ===== src/Virtio/Init/Tests.antt =====
-- The start of a device with two queues, of two descriptors and of one.
use fomos.Common.{ℕ, ◌-◌, refl, List, [], ◌∷◌}
use fomos.Virtio.Init.Device.{CommonCfg}

-- The state is the status, as `read` shows it, and the queue that is selected.
abbrev device_with : (ℕ → ℕ) → CommonCfg
device_with shown = record {
  State = ℕ × ℕ;
  read_status = λ s. shown s.0;
  write_status = λ s v. (v, s.1);
  write_feature = λ s f. s;
  num_queues = λ s. 2;
  select = λ s q. (s.0, q);
  queue_size = λ s. 2 - s.1;
  write_desc = λ s a. s;
  write_driver = λ s a. s;
  write_device = λ s a. s;
  enable = λ s. s;
  queue_count = 2;
  num_queues-eq = λ s. refl;
  size_of = λ q. 2 - q;
  size-select = λ s q. refl;
  size-write_desc = λ s a. refl;
  status-write_feature = λ s f. refl;
  status-select = λ s q. refl;
  status-write_desc = λ s a. refl;
  status-write_driver = λ s a. refl;
  status-write_device = λ s a. refl;
  status-enable = λ s. refl;
}

abbrev ten : List ℕ
ten = 1 ∷ 2 ∷ 3 ∷ 4 ∷ 5 ∷ 6 ∷ 7 ∷ 8 ∷ 9 ∷ 10 ∷ []
