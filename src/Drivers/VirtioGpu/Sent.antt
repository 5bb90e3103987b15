-- ===== src/Drivers/VirtioGpu/Sent.antt =====
-- A command on its way: the driver puts its bytes into a chain of the queue, and the device reads the
-- chain by the layout of the specification.
use fomos.Common.{ℕ, Option, List, take, ◌>>=◌}
use fomos.Virtio.{Virtqueue, read_desc}
use fomos.Drivers.VirtioGpu.Commands.Layout.{device_read}

-- What a device reads from the first descriptor of a chain.
unfoldable pub received : Virtqueue → ℕ → Option (List ℕ)
unfolding read_desc
received q id = do desc ← read_desc q id; device_read (take desc.len (q.memory desc.addr))
