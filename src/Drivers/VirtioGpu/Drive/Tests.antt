-- ===== src/Drivers/VirtioGpu/Drive/Tests.antt =====
-- The set-up of the GPU where pages are taken one after the other.
use fomos.Common.{ℕ, ◌+◌, ◌*◌, ◌≡◌, none, [], arith}
use fomos.Memory.Paging.{Outcome, ok}
use fomos.Framebuffer.{Fb}
use fomos.Drivers.VirtioGpu.Commands.{Rect, CmdSubmit3d, default_hdr}
use fomos.Drivers.VirtioGpu.Drive.{screen, setup}
use fomos.Drivers.VirtioGpu.Drive.Device.{reset, accept_all}
use fomos.Drivers.VirtioGpu.Drive.Accepted.{setup-offset}

-- The state is the address of the next page that is free.
abbrev bump : ℕ → ℕ → Outcome (ℕ × ℕ)
bump pages next = ok (next, next + pages * 4096)

-- The screen that a device gives at first.
abbrev display : Rect
display = record { x = 0; y = 0; w = 1280; h = 800 }

abbrev no_pixels : Fb
no_pixels = record {
  pixels = record { ptr = 1; len = 0; capacity = 0 };
  backbuffer = record { ptr = 1; len = 0; capacity = 0 };
  w = 0;
  h = 0;
}

abbrev command : CmdSubmit3d
command = record { header = default_hdr; len = 0; buffer = []; unspecified = 0 }

-- A second screen, to the right of another.
abbrev second_display : Rect
second_display = record { x = 1280; y = 0; w = 1280; h = 800 }

setup-offset_example :
    accept_all reset (setup (screen second_display) 1 0x100000 0x200000 command) ≡ none
setup-offset_example = setup-offset second_display 1 0x100000 0x200000 command (omega arith)
