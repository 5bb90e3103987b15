-- ===== src/Drivers/VirtioGpu/Commands.antt =====
-- The structs of bootloader/kernel/src/drivers/virtio_gpu.rs that are sent to the device, and their
-- bytes: `repr(C)` puts the fields one after the other, which are aligned as they stand.
pub mod Layout
mod Tests
use fomos.Common.{ℕ, ◌*◌, List, [], ◌∷◌, ◌++◌, map}
use fomos.Common.Bytes.{pack}
use fomos.Drivers.VirtioGpu.Enums.{
  CtrlType, ctrl_type_number, GpuFormat, gpu_format_number, cmd_get_display_info,
}
use fomos.Drivers.VirtioGpu.Enums3d.{TextureTarget, texture_target_number, pipe_texture_2d}

-- VirtioGpuCtrlHdr, with its three bytes of padding as one number
pub record CtrlHdr : Type 0 where
  pub type_ : CtrlType
  pub flags : ℕ
  pub fence_id : ℕ
  pub ctx_id : ℕ
  pub ring_idx : ℕ
  pub padding : ℕ

-- VirtioGpuCtrlHdr::default
unfoldable pub default_hdr : CtrlHdr
default_hdr = record {
  type_ = cmd_get_display_info;
  flags = 0;
  fence_id = 0;
  ctx_id = 0;
  ring_idx = 0;
  padding = 0;
}

-- VirtioGpuRect
pub record Rect : Type 0 where
  pub x : ℕ
  pub y : ℕ
  pub w : ℕ
  pub h : ℕ

pub record CmdGetCapsetInfo : Type 0 where
  pub header : CtrlHdr
  pub capset_index : ℕ
  pub padding : ℕ

pub record CmdResourceCreate2d : Type 0 where
  pub header : CtrlHdr
  pub resource_id : ℕ
  pub format : GpuFormat
  pub width : ℕ
  pub height : ℕ

pub record CmdResourceAttachBacking : Type 0 where
  pub header : CtrlHdr
  pub resource_id : ℕ
  pub nr_entries : ℕ
  pub addr : ℕ
  pub length : ℕ
  pub padding : ℕ

pub record CmdSetScanout : Type 0 where
  pub header : CtrlHdr
  pub r : Rect
  pub scanout_id : ℕ
  pub resource_id : ℕ

pub record CmdTransferToHost2d : Type 0 where
  pub header : CtrlHdr
  pub r : Rect
  pub offset : ℕ
  pub resource_id : ℕ
  pub padding : ℕ

pub record CmdResourceFlush : Type 0 where
  pub header : CtrlHdr
  pub r : Rect
  pub resource_id : ℕ
  pub padding : ℕ

-- A `char` has four bytes.
pub record CmdCtxCreate : Type 0 where
  pub header : CtrlHdr
  pub nlen : ℕ
  pub context_init : ℕ
  pub debug_name : List ℕ

-- VirglRendererResourceCreateArgs, with the number of its format
pub record ResourceCreateArgs : Type 0 where
  pub handle : ℕ
  pub target : TextureTarget
  pub format : ℕ
  pub bind : ℕ
  pub width : ℕ
  pub height : ℕ
  pub depth : ℕ
  pub array_size : ℕ
  pub last_level : ℕ
  pub nr_samples : ℕ
  pub flags : ℕ

abbrev pub virgl_format_r8g8b8a8_unorm : ℕ
virgl_format_r8g8b8a8_unorm = 67

abbrev pub pipe_bind_render_target : ℕ
pipe_bind_render_target = 2

abbrev pub pipe_bind_sampler_view : ℕ
pipe_bind_sampler_view = 8

-- VirglRendererResourceCreateArgs::default
unfoldable pub default_args : ResourceCreateArgs
default_args = record {
  handle = 0;
  target = pipe_texture_2d;
  format = virgl_format_r8g8b8a8_unorm;
  bind = pipe_bind_render_target;
  width = 128;
  height = 128;
  depth = 1;
  array_size = 1;
  last_level = 0;
  nr_samples = 0;
  flags = 0;
}

pub record CmdCtxAttachResource : Type 0 where
  pub header : CtrlHdr
  pub handle : ℕ
  pub padding : ℕ

pub record CmdResourceCreate3d : Type 0 where
  pub header : CtrlHdr
  pub args : ResourceCreateArgs
  pub padding : ℕ

-- `unspecified` is what the four bytes hold that align the struct.
pub record CmdSubmit3d : Type 0 where
  pub header : CtrlHdr
  pub len : ℕ
  pub buffer : List ℕ
  pub unspecified : ℕ

-- The types that `request` is called with.
pub data GpuCommand : Type 0 where
  ctrl_hdr : CtrlHdr → GpuCommand
  get_capset_info : CmdGetCapsetInfo → GpuCommand
  resource_create_2d : CmdResourceCreate2d → GpuCommand
  resource_attach_backing : CmdResourceAttachBacking → GpuCommand
  set_scanout : CmdSetScanout → GpuCommand
  transfer_to_host_2d : CmdTransferToHost2d → GpuCommand
  resource_flush : CmdResourceFlush → GpuCommand
  ctx_create : CmdCtxCreate → GpuCommand
  ctx_attach_resource : CmdCtxAttachResource → GpuCommand
  resource_create_3d : CmdResourceCreate3d → GpuCommand
  submit_3d : CmdSubmit3d → GpuCommand

unfoldable pub hdr_fields : CtrlHdr → List (ℕ × ℕ)
hdr_fields h =
    (4, ctrl_type_number h.type_)
    ∷ (4, h.flags)
    ∷ (8, h.fence_id)
    ∷ (4, h.ctx_id)
    ∷ (1, h.ring_idx)
    ∷ (3, h.padding)
    ∷ []

unfoldable pub rect_fields : Rect → List (ℕ × ℕ)
rect_fields r = (4, r.x) ∷ (4, r.y) ∷ (4, r.w) ∷ (4, r.h) ∷ []

unfoldable pub args_fields : ResourceCreateArgs → List (ℕ × ℕ)
args_fields a =
    (4, a.handle)
    ∷ (4, texture_target_number a.target)
    ∷ (4, a.format)
    ∷ (4, a.bind)
    ∷ (4, a.width)
    ∷ (4, a.height)
    ∷ (4, a.depth)
    ∷ (4, a.array_size)
    ∷ (4, a.last_level)
    ∷ (4, a.nr_samples)
    ∷ (4, a.flags)
    ∷ []

unfoldable pub words : List ℕ → List (ℕ × ℕ)
words = map (λ v. (4, v))

unfoldable pub fields : GpuCommand → List (ℕ × ℕ)
unfolding hdr_fields rect_fields args_fields words
fields (ctrl_hdr h) = hdr_fields h
fields (get_capset_info c) = hdr_fields c.header ++ ((4, c.capset_index) ∷ (4, c.padding) ∷ [])
fields (resource_create_2d c) =
    hdr_fields c.header
    ++ ((4, c.resource_id) ∷ (4, gpu_format_number c.format) ∷ (4, c.width) ∷ (4, c.height) ∷ [])
fields (resource_attach_backing c) =
    hdr_fields c.header
    ++ ((4, c.resource_id) ∷ (4, c.nr_entries) ∷ (8, c.addr) ∷ (4, c.length) ∷ (4, c.padding) ∷ [])
fields (set_scanout c) =
    hdr_fields c.header ++ (rect_fields c.r ++ ((4, c.scanout_id) ∷ (4, c.resource_id) ∷ []))
fields (transfer_to_host_2d c) =
    hdr_fields c.header
    ++ (rect_fields c.r ++ ((8, c.offset) ∷ (4, c.resource_id) ∷ (4, c.padding) ∷ []))
fields (resource_flush c) =
    hdr_fields c.header ++ (rect_fields c.r ++ ((4, c.resource_id) ∷ (4, c.padding) ∷ []))
fields (ctx_create c) =
    hdr_fields c.header ++ ((4, c.nlen) ∷ (4, c.context_init) ∷ words c.debug_name)
fields (ctx_attach_resource c) = hdr_fields c.header ++ ((4, c.handle) ∷ (4, c.padding) ∷ [])
fields (resource_create_3d c) = hdr_fields c.header ++ (args_fields c.args ++ ((4, c.padding) ∷ []))
fields (submit_3d c) =
    hdr_fields c.header ++ ((4, c.len) ∷ (words c.buffer ++ ((4, c.unspecified) ∷ [])))

-- What `add_request` writes behind the descriptor.
unfoldable pub to_bytes : GpuCommand → List ℕ
unfolding fields
to_bytes c = pack (fields c)
