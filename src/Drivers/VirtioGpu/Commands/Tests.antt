-- ===== src/Drivers/VirtioGpu/Commands/Tests.antt =====
-- Commands as the driver sends them.
use fomos.Common.{◌≡◌, refl, some, [], ◌∷◌, ◌++◌, map, arith}
use fomos.Drivers.VirtioGpu.Enums.{cmd_resource_create_2d, cmd_submit_3d, format_r8g8b8a8_unorm}
use fomos.Drivers.VirtioGpu.Commands.{CmdSubmit3d, submit_3d, hdr_fields, fields, to_bytes}
use fomos.Drivers.VirtioGpu.Commands.Layout.{device_read, device_read-submit_3d}

abbrev two_words : CmdSubmit3d
two_words = record {
  header = record {
    type_ = cmd_submit_3d;
    flags = 0;
    fence_id = 0;
    ctx_id = 1;
    ring_idx = 0;
    padding = 0;
  };
  len = 2;
  buffer = 7 ∷ 9 ∷ [];
  unspecified = 0;
}

device_read-submit_3d_example :
    device_read (to_bytes (submit_3d two_words))
    ≡ some (map (λ f. f.1) (hdr_fields two_words.header) ++ (2 ∷ 7 ∷ []))
unfolding fields hdr_fields fomos.Drivers.VirtioGpu.Enums.ctrl_type_number
device_read-submit_3d_example = device_read-submit_3d two_words 7 (9 ∷ []) refl refl (ground arith)
