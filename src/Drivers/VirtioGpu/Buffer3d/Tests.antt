-- ===== src/Drivers/VirtioGpu/Buffer3d/Tests.antt =====
-- The calls that the driver makes.
use fomos.Common.{List, [], ◌∷◌}
use fomos.Drivers.VirtioGpu.Buffer3d.{Call3d, clear, create_surface, set_framebuffer_state}

abbrev calls : List Call3d
calls = create_surface 2 67 ∷ set_framebuffer_state (2 ∷ []) ∷ clear 1020 (255, 0, 0, 255) 0 0 ∷ []
