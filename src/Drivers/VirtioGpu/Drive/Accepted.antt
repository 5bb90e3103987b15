-- ===== src/Drivers/VirtioGpu/Drive/Accepted.antt =====
-- The requests of the driver, before the device and in the pages of the queue.
use fomos.Common.{
  All, length, ℕ, zero, suc, ◌+◌, ◌*◌, ◌≤◌, ◌<◌, ◌≡◌, refl, ◌∙◌, none, some, List, [], ◌∷◌, ◌++◌,
  map, false, leb, arith,
}
use fomos.Framebuffer.{Fb}
use fomos.Drivers.VirtioGpu.Commands.{GpuCommand, Rect, CmdSubmit3d}
use fomos.Drivers.VirtioGpu.Commands.{to_bytes}
use fomos.Drivers.VirtioGpu.Drive.{
  screen, capacity, pages_needed, setup, capset_requests, Loop, loop_request,
}
use fomos.Drivers.VirtioGpu.Drive.Device.{Gpu, reset, accept, accept_all}

-- The device when the loops begin.
abbrev pub set_up : ℕ → ℕ → Gpu
set_up addr addr_3d = record {
  resources =
      record { id = 2; width = 256; height = 256; backing = some (addr_3d, 4 * (256 * 256)) }
      ∷ record { id = 1; width = 1600; height = 900; backing = some (addr, 4 * (1600 * 900)) }
      ∷ [];
  contexts = 1 ∷ [];
  scanout = some 1;
}

accept_capsets :
    (g : Gpu) (i n : ℕ) (rest : List GpuCommand)
    → accept_all g (capset_requests i n ++ rest) ≡ accept_all g rest
unfolding accept_all accept capset_requests
accept_capsets g i zero rest = refl
accept_capsets g i (suc n) rest = accept_capsets g (i + 1) n rest

-- The screen of a display at the origin.
abbrev origin : Rect
origin = record { x = 0; y = 0; w = 1600; h = 900 }

-- The bytes of a request fit into the page behind a descriptor.
abbrev pub FitsPage : GpuCommand → Type 0
FitsPage c = length (to_bytes c) ≤ 4096

-- What the requests and the framebuffer are for, with the two buffers at `addr` and `addr_3d`.
pub record Driven (addr addr_3d : ℕ) (r : Rect) (requests : List GpuCommand) (fb : Fb)
    : Type 0 where
  pub accepted :
      (loops : List Loop)
      → accept_all reset (requests ++ map (loop_request r) loops) ≡ some (set_up addr addr_3d)
  pub fit : All FitsPage requests
  pub pixels_at : fb.pixels.ptr ≡ addr
  pub pixels_len : 4 * fb.pixels.len ≡ 4 * (1600 * 900)
  pub pixels_fit : 4 * fb.pixels.len ≤ 4096 * pages_needed (capacity r)
  pub size : (fb.w ≡ 1600) × (fb.h ≡ 900)

leb-false : (a b : ℕ) → b < a → leb a b ≡ false
leb-false a b h = ground arith

-- The place of the display is kept with the new size: if it is not at the left edge, the device does
-- not accept the requests, since the rectangle that is to be shown ends beyond the resource.
pub setup-offset :
    (r : Rect) (num_capsets addr addr_3d : ℕ) (c : CmdSubmit3d)
    → 0 < r.x
    → accept_all reset (setup (screen r) num_capsets addr addr_3d c) ≡ none
unfolding accept_all accept setup
setup-offset r n addr addr_3d c h =
    accept_capsets reset 0 n _ ∙ rw (leb-false (r.x + 1600) 1600 (omega arith)) refl
