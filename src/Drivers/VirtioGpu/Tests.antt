-- ===== src/Drivers/VirtioGpu/Tests.antt =====
-- Requests of the GPU driver on a queue of four descriptors, and a task that waits for one.
use fomos.Common.{ℕ, ◌≡◌, refl, none, some, List, [], ◌∷◌, arith, get_elem?, set, replicate}
use fomos.Drivers.VirtioGpu.Enums.{cmd_resource_create_2d, format_r8g8b8a8_unorm}
use fomos.Drivers.VirtioGpu.Commands.{CmdResourceCreate2d}
use fomos.Task.Executor.{ready}
use fomos.Virtio.{Virtqueue}
use fomos.Virtio.Used.{while_used}
use fomos.Virtio.Tests.{one_used, answered, one_used-Pending}
use fomos.Drivers.VirtioGpu.{IdWaker, nobody, waker, wake_used, id_wait_poll, request_start}
use fomos.Drivers.VirtioGpu.Wakers.{checkall-id_wait_poll}

-- Task 7 waits for descriptor 2.
abbrev waiting : List IdWaker
waiting = set (replicate 256 nobody) 2 (waker 7)

checkall-id_wait_poll_example :
    (q' : Virtqueue) × (wakers' : List IdWaker) × (woken : List ℕ) × (wakers'' : List IdWaker)
    × (while_used wake_used 2 one_used (waiting, []) ≡ some (q', (wakers', woken)))
    × (id_wait_poll 2 7 wakers' ≡ some (ready, wakers''))
    × (get_elem? wakers'' 2 ≡ some nobody)
checkall-id_wait_poll_example =
    checkall-id_wait_poll 4 (answered ∷ []) one_used waiting 2 2 7 (omega arith) refl
      one_used-Pending (omega arith, tt) (omega arith) (omega arith) refl

abbrev requested : Virtqueue
requested = elim (request_start one_used (9 ∷ [])) [ none ↦ one_used | some (id, next, q) ↦ q ]

abbrev of_screen : CmdResourceCreate2d
of_screen = record {
  header = record {
    type_ = cmd_resource_create_2d;
    flags = 0;
    fence_id = 0;
    ctx_id = 0;
    ring_idx = 0;
    padding = 0;
  };
  resource_id = 1;
  format = format_r8g8b8a8_unorm;
  width = 1600;
  height = 900;
}
