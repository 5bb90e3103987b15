-- ===== src/Drivers/VirtioGpu/Drive.antt =====
-- `drive` of bootloader/kernel/src/drivers/virtio_gpu.rs: the requests that it makes, in their order.
-- Each waits for the answer to the one before; of the answers only the place of the display is used.
-- The colors that `drive` writes to the pixels and the time of the last flush, which nothing reads, are
-- left out.
pub mod Device
pub mod Accepted
mod Tests
use fomos.Common.{
  ℕ, zero, suc, ◌+◌, ◌*◌, ◌/◌, ◌%◌, ◌^◌, Option, none, some, List, [], ◌∷◌, ◌++◌, replicate, set,
}
use fomos.Memory.Paging.{Mapper, Outcome, ok, panic, ◌>>=◌, State, create_identity_virt_from_phys_n}
use fomos.Framebuffer.{Fb, update}
use fomos.Drivers.VirtioGpu.Enums.{
  CtrlType, cmd_get_display_info, cmd_get_edid, cmd_get_capset_info, cmd_resource_create_2d,
  cmd_resource_attach_backing, cmd_set_scanout, cmd_transfer_to_host_2d, cmd_resource_flush,
  cmd_ctx_create, cmd_resource_create_3d, cmd_ctx_attach_resource, format_r8g8b8a8_unorm,
}
use fomos.Drivers.VirtioGpu.Commands.{
  CtrlHdr, GpuCommand, Rect, CmdSubmit3d, ctrl_hdr, get_capset_info, resource_create_2d,
  resource_attach_backing, set_scanout, transfer_to_host_2d, resource_flush, ctx_create,
  ctx_attach_resource, resource_create_3d, submit_3d, default_hdr, default_args, ResourceCreateArgs,
  pipe_bind_sampler_view,
}
use fomos.Drivers.VirtioGpu.Buffer3d.{Call3d, create_surface, set_framebuffer_state, clear, submit}

abbrev hdr : CtrlType → CtrlHdr
hdr t = record default_hdr { type_ = t }

-- The header of a request of context 1.
abbrev hdr_1 : CtrlType → CtrlHdr
hdr_1 t = record default_hdr { type_ = t; ctx_id = 1 }

-- `for i in 0..num_capsets`, from `i` on
unfoldable pub capset_requests : ℕ → ℕ → List GpuCommand
capset_requests i zero = []
capset_requests i (suc n) =
    get_capset_info (record { header = hdr cmd_get_capset_info; capset_index = i; padding = 0 })
    ∷ capset_requests (i + 1) n

-- The place that the device gives, with the width and the height set over.
abbrev pub screen : Rect → Rect
screen r = record r { w = 1600; h = 900 }

-- The number of pixels, of 32 bits, and the pages for them.
abbrev pub capacity : Rect → ℕ
capacity r = r.w * r.h % 2 ^ 32

abbrev pub pages_needed : ℕ → ℕ
pages_needed pixels = 1 + pixels * 4 / 4096

abbrev create_2d_request : Rect → GpuCommand
create_2d_request r = resource_create_2d (record {
  header = hdr cmd_resource_create_2d;
  resource_id = 1;
  format = format_r8g8b8a8_unorm;
  width = r.w;
  height = r.h;
})

-- `size_of::<RGBA>()` is 4.
abbrev attach_request : CtrlHdr → ℕ → ℕ → ℕ → GpuCommand
attach_request header id addr pixels = resource_attach_backing (record {
  header = header;
  resource_id = id;
  nr_entries = 1;
  addr = addr;
  length = 4 * pixels % 2 ^ 32;
  padding = 0;
})

abbrev scanout_request : Rect → GpuCommand
scanout_request r =
    set_scanout (record { header = hdr cmd_set_scanout; r = r; scanout_id = 0; resource_id = 1 })

abbrev transfer_request : Rect → GpuCommand
transfer_request r = transfer_to_host_2d (record {
  header = hdr cmd_transfer_to_host_2d;
  r = r;
  offset = 0;
  resource_id = 1;
  padding = 0;
})

abbrev flush_request : Rect → GpuCommand
flush_request r =
    resource_flush (record { header = hdr cmd_resource_flush; r = r; resource_id = 1; padding = 0 })

-- "Debug\0"
abbrev name : List ℕ
name = 68 ∷ 101 ∷ 98 ∷ 117 ∷ 103 ∷ 0 ∷ []

-- The loop that writes the name into `debug_name`, from `index` on.
abbrev write_name : ℕ → List ℕ → List ℕ → List ℕ
write_name index [] debug_name = debug_name
write_name index (e ∷ rest) debug_name = write_name (index + 1) rest (set debug_name index e)

abbrev ctx_create_request : GpuCommand
ctx_create_request = ctx_create (record {
  header = hdr_1 cmd_ctx_create;
  nlen = 6;
  context_init = 0;
  debug_name = write_name 0 name (replicate 64 49);
})

abbrev args : ResourceCreateArgs
args = record default_args { handle = 2; bind = pipe_bind_sampler_view; width = 256; height = 256 }

abbrev create_3d_request : GpuCommand
create_3d_request =
    resource_create_3d (record { header = hdr_1 cmd_resource_create_3d; args = args; padding = 0 })

abbrev ctx_attach_request : GpuCommand
ctx_attach_request =
    ctx_attach_resource (record { header = hdr_1 cmd_ctx_attach_resource; handle = 2; padding = 0 })

-- PIPE_CLEAR_COLOR is 1020, the eight color buffers.
abbrev pub first_3d : List Call3d
first_3d =
    create_surface 2 args.format
    ∷ set_framebuffer_state (2 ∷ [])
    ∷ clear 1020 (255, 0, 0, 255) 0 0
    ∷ []

-- The requests before the loops, for `num_capsets` sets of capabilities and the two buffers.
unfoldable pub setup : Rect → ℕ → ℕ → ℕ → CmdSubmit3d → List GpuCommand
unfolding capset_requests
setup r num_capsets addr addr_3d c =
    ctrl_hdr (hdr cmd_get_display_info)
    ∷ (capset_requests 0 num_capsets
        ++ (ctrl_hdr (hdr cmd_get_edid)
            ∷ create_2d_request r
            ∷ attach_request (hdr cmd_resource_attach_backing) 1 addr (capacity r)
            ∷ scanout_request r
            ∷ transfer_request r
            ∷ flush_request r
            ∷ ctx_create_request
            ∷ create_3d_request
            ∷ ctx_attach_request
            ∷ attach_request (hdr_1 cmd_resource_attach_backing) 2 addr_3d (256 * 256)
            ∷ submit_3d c
            ∷ []))

-- `unwrap()` of the conversion to an array.
abbrev pub or_panic : {A : Type 0} → Option A → Outcome A
or_panic none = panic
or_panic (some a) = ok a

-- `drive` up to its loops: the requests, and the framebuffer over the pages of the first buffer.
-- `create_n` is `create_identity_virt_from_phys_n` with the state that it works on, which
-- Memory/Paging models. `r` is the place in the answer to the first request, `unspecified` is as for
-- `submit`. A panic is the result whatever was requested before it.
module _ {S : Type 0} (create_n : ℕ → S → Outcome (ℕ × S)) where
  unfoldable pub drive : Rect → ℕ → ℕ → Fb → S → Outcome (List GpuCommand × Fb × S)
  drive r num_capsets unspecified fb s = do
    let r' = screen r
    (addr, s1) ← create_n (pages_needed (capacity r')) s
    let fb' = update fb addr r'.w r'.h
    (addr_3d, s2) ← create_n (pages_needed (256 * 256)) s1
    c ← or_panic (submit unspecified first_3d)
    ok (setup r' num_capsets addr addr_3d c, fb', s2)

-- The two loops that run from then on, each on its own.
pub data Loop : Type 0 where
  transfers flushes : Loop

unfoldable pub loop_request : Rect → Loop → GpuCommand
loop_request r transfers = transfer_request r
loop_request r flushes = flush_request r
