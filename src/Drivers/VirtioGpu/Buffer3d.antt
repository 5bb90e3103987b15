-- ===== src/Drivers/VirtioGpu/Buffer3d.antt =====
-- The 3d commands that `drive` of bootloader/kernel/src/drivers/virtio_gpu.rs collects in a buffer of
-- words and submits. A command begins with a word that has its length, the type of its object and
-- its own number.
pub mod Padding
pub mod Frames
mod Tests
use fomos.Common.{
  ℕ, zero, suc, ◌+◌, ◌%◌, ◌^◌, List, [], ◌∷◌, ◌++◌, Option, none, some, foldl, length, ltb, ◌==◌,
  if◌then◌else◌,
}
use fomos.Common.Bits.{shl}
use Prim.Native.Nat.{bit_or}
use fomos.Drivers.VirtioGpu.Enums.{cmd_submit_3d}
use fomos.Drivers.VirtioGpu.Enums3d.{
  cmd_3d_number, ccmd_clear, ccmd_set_framebuffer_state, ccmd_create_object, object_type_number,
  object_surface,
}
use fomos.Drivers.VirtioGpu.Commands.{CtrlHdr, CmdSubmit3d, default_hdr}

abbrev pub Rgba : Type 0
Rgba = ℕ × ℕ × ℕ × ℕ

-- The length, the type of the object and the number of the command in a word of 32 bits.
abbrev pub plus_header : ℕ → ℕ → ℕ → ℕ
plus_header len object command = shl len 16 % 2 ^ 32 + shl object 8 + command

-- `cmd_clear` does not read the depth and the stencil.
unfoldable pub cmd_clear : List ℕ → ℕ → Rgba → ℕ → ℕ → List ℕ
unfolding cmd_3d_number
cmd_clear buffer buffers (r, g, b, a) depth stencil =
    buffer
    ++ (plus_header 8 0 (cmd_3d_number ccmd_clear) ∷ buffers ∷ r ∷ g ∷ b ∷ a ∷ 0 ∷ 0 ∷ 0 ∷ [])

unfoldable pub cmd_set_framebuffer_state : List ℕ → List ℕ → List ℕ
unfolding cmd_3d_number
cmd_set_framebuffer_state buffer handles =
    let n = length handles % 2 ^ 32 in
    buffer
    ++ (plus_header ((n + 2) % 2 ^ 32) 0 (cmd_3d_number ccmd_set_framebuffer_state)
        ∷ n
        ∷ 0
        ∷ handles)

unfoldable pub cmd_create_surface : List ℕ → ℕ → ℕ → List ℕ
unfolding cmd_3d_number object_type_number
cmd_create_surface buffer handle format =
    let header =
      bit_or (bit_or (shl 5 16) (shl (object_type_number object_surface) 8))
        (cmd_3d_number ccmd_create_object) in
    buffer ++ (header ∷ handle ∷ handle ∷ format ∷ 0 ∷ 0 ∷ [])

-- A call of one of the three.
pub data Call3d : Type 0 where
  clear : ℕ → Rgba → ℕ → ℕ → Call3d
  set_framebuffer_state : List ℕ → Call3d
  create_surface : ℕ → ℕ → Call3d

unfoldable pub issue : List ℕ → Call3d → List ℕ
unfolding cmd_clear cmd_set_framebuffer_state cmd_create_surface
issue buffer (clear buffers rgba depth stencil) = cmd_clear buffer buffers rgba depth stencil
issue buffer (set_framebuffer_state handles) = cmd_set_framebuffer_state buffer handles
issue buffer (create_surface handle format) = cmd_create_surface buffer handle format

-- The loop that pads to 512 words, on fuel.
unfoldable pub pad_512 : ℕ → List ℕ → List ℕ
pad_512 zero buffer = buffer
pad_512 (suc fuel) buffer =
    let rest = pad_512 fuel (buffer ++ (0 ∷ [])) in if ltb (length buffer) 512 then rest else buffer

-- What is sent; `none` is the panic of the conversion to an array of 512 words. `unspecified` is what
-- the bytes hold that align the struct.
unfoldable pub submit_padded : ℕ → ℕ → List ℕ → Option CmdSubmit3d
unfolding default_hdr
submit_padded unspecified len padded =
    if length padded == 512
    then some (record {
      header = record default_hdr { type_ = cmd_submit_3d; ctx_id = 1 };
      len = len;
      buffer = padded;
      unspecified = unspecified;
    })
    else none

-- From the calls to the command that is sent.
unfoldable pub submit : ℕ → List Call3d → Option CmdSubmit3d
submit unspecified calls =
    let buffer = foldl issue [] calls in
    submit_padded unspecified (length buffer % 2 ^ 32) (pad_512 512 buffer)
