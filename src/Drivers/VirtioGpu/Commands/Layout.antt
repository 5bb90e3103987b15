-- ===== src/Drivers/VirtioGpu/Commands/Layout.antt =====
-- The bytes of the commands, against the layouts that the virtio specification gives a device.
use fomos.Common.{
  ℕ, ◌+◌, ◌*◌, ◌≤◌, ◌≡◌, refl, sym, ap, subst, ◌∙◌, Option, none, some, List, [], ◌∷◌, ◌++◌, map,
  take, replicate, length, All, ◌==◌, if◌then◌else◌, append-nil, ◌>>=◌, arith, All-front,
}
use fomos.Common.Bytes.{
  of_bytes, pack, unpack, unpack-pack, take-pack, length-pack, pack-append, total_width, FitsWidth,
}
use fomos.Drivers.VirtioGpu.Enums
use fomos.Drivers.VirtioGpu.Enums.{CtrlType, ctrl_type_number, gpu_format_number}
use fomos.Drivers.VirtioGpu.Commands.{
  GpuCommand, CtrlHdr, CmdGetCapsetInfo, CmdResourceCreate2d, CmdResourceAttachBacking,
  CmdSetScanout, CmdTransferToHost2d, CmdResourceFlush, CmdCtxAttachResource, CmdResourceCreate3d,
  CmdSubmit3d, ctrl_hdr, get_capset_info, resource_create_2d, resource_attach_backing, set_scanout,
  transfer_to_host_2d, resource_flush, ctx_create, ctx_attach_resource, resource_create_3d,
  submit_3d, hdr_fields, rect_fields, args_fields, words, fields, to_bytes,
}

abbrev hdr_widths : List ℕ
hdr_widths = 4 ∷ 4 ∷ 8 ∷ 4 ∷ 1 ∷ 3 ∷ []

abbrev rect_widths : List ℕ
rect_widths = 4 ∷ 4 ∷ 4 ∷ 4 ∷ []

-- The widths of the fields of a request, by the number of its type.
unfoldable pub spec_layout : ℕ → Option (List ℕ)
spec_layout n =
    if n == 0x100
    then some hdr_widths
    else if n == 0x101
    then some (hdr_widths ++ (4 ∷ 4 ∷ 4 ∷ 4 ∷ []))
    else if n == 0x103
    then some (hdr_widths ++ (rect_widths ++ (4 ∷ 4 ∷ [])))
    else if n == 0x104
    then some (hdr_widths ++ (rect_widths ++ (4 ∷ 4 ∷ [])))
    else if n == 0x105
    then some (hdr_widths ++ (rect_widths ++ (8 ∷ 4 ∷ 4 ∷ [])))
    else if n == 0x106
    then some (hdr_widths ++ (4 ∷ 4 ∷ 8 ∷ 4 ∷ 4 ∷ []))
    else if n == 0x108
    then some (hdr_widths ++ (4 ∷ 4 ∷ []))
    else if n == 0x202
    then some (hdr_widths ++ (4 ∷ 4 ∷ []))
    else if n == 0x204
    then some (hdr_widths ++ (replicate 11 4 ++ (4 ∷ [])))
    else if n == 0x207
    then some (hdr_widths ++ (4 ∷ 4 ∷ []))
    else none

-- What a device reads from a request.
unfoldable pub device_read : List ℕ → Option (List ℕ)
unfolding spec_layout
device_read bytes = spec_layout (of_bytes (take 4 bytes)) >>= λ widths. some (unpack widths bytes)

-- A command under the type that it is sent with, one constructor for each that has the layout of
-- the specification.
pub data IsSent : GpuCommand → Type 0 where
  display_info : (h : CtrlHdr) → h.type_ ≡ Enums.cmd_get_display_info → IsSent (ctrl_hdr h)
  capset_info :
      (c : CmdGetCapsetInfo)
      → c.header.type_ ≡ Enums.cmd_get_capset_info
      → IsSent (get_capset_info c)
  create_2d :
      (c : CmdResourceCreate2d)
      → c.header.type_ ≡ Enums.cmd_resource_create_2d
      → IsSent (resource_create_2d c)
  attach_backing :
      (c : CmdResourceAttachBacking)
      → c.header.type_ ≡ Enums.cmd_resource_attach_backing
      → IsSent (resource_attach_backing c)
  scanout : (c : CmdSetScanout) → c.header.type_ ≡ Enums.cmd_set_scanout → IsSent (set_scanout c)
  transfer :
      (c : CmdTransferToHost2d)
      → c.header.type_ ≡ Enums.cmd_transfer_to_host_2d
      → IsSent (transfer_to_host_2d c)
  flush :
      (c : CmdResourceFlush) → c.header.type_ ≡ Enums.cmd_resource_flush → IsSent (resource_flush c)
  attach_resource :
      (c : CmdCtxAttachResource)
      → c.header.type_ ≡ Enums.cmd_ctx_attach_resource
      → IsSent (ctx_attach_resource c)
  create_3d :
      (c : CmdResourceCreate3d)
      → c.header.type_ ≡ Enums.cmd_resource_create_3d
      → IsSent (resource_create_3d c)

widths : GpuCommand → List ℕ
widths c = map (λ f. f.0) (fields c)

abbrev header : GpuCommand → CtrlHdr
header (ctrl_hdr h) = h
header (get_capset_info c) = c.header
header (resource_create_2d c) = c.header
header (resource_attach_backing c) = c.header
header (set_scanout c) = c.header
header (transfer_to_host_2d c) = c.header
header (resource_flush c) = c.header
header (ctx_create c) = c.header
header (ctx_attach_resource c) = c.header
header (resource_create_3d c) = c.header
header (submit_3d c) = c.header

sent_layout :
    {c : GpuCommand} → IsSent c → spec_layout (ctrl_type_number (header c).type_) ≡ some (widths c)
unfolding spec_layout widths fields ctrl_type_number
sent_layout (display_info h e) = ap (λ t. spec_layout (ctrl_type_number t)) e
sent_layout (capset_info c e) = ap (λ t. spec_layout (ctrl_type_number t)) e
sent_layout (create_2d c e) = ap (λ t. spec_layout (ctrl_type_number t)) e
sent_layout (attach_backing c e) = ap (λ t. spec_layout (ctrl_type_number t)) e
sent_layout (scanout c e) = ap (λ t. spec_layout (ctrl_type_number t)) e
sent_layout (transfer c e) = ap (λ t. spec_layout (ctrl_type_number t)) e
sent_layout (flush c e) = ap (λ t. spec_layout (ctrl_type_number t)) e
sent_layout (attach_resource c e) = ap (λ t. spec_layout (ctrl_type_number t)) e
sent_layout (create_3d c e) = ap (λ t. spec_layout (ctrl_type_number t)) e

after_type : GpuCommand → List (ℕ × ℕ)
after_type c = elim (fields c) [ [] ↦ [] | f ∷ more ↦ more ]

type_first : (c : GpuCommand) → fields c ≡ (4, ctrl_type_number (header c).type_) ∷ after_type c
unfolding fields hdr_fields after_type
type_first (ctrl_hdr h) = refl
type_first (get_capset_info c) = refl
type_first (resource_create_2d c) = refl
type_first (resource_attach_backing c) = refl
type_first (set_scanout c) = refl
type_first (transfer_to_host_2d c) = refl
type_first (resource_flush c) = refl
type_first (ctx_create c) = refl
type_first (ctx_attach_resource c) = refl
type_first (resource_create_3d c) = refl
type_first (submit_3d c) = refl

type_read :
    (c : GpuCommand)
    → All FitsWidth (fields c)
    → of_bytes (take 4 (to_bytes c)) ≡ ctrl_type_number (header c).type_
unfolding to_bytes
type_read c fits =
    let n = ctrl_type_number (header c).type_ in
    let fits' = subst (All FitsWidth) (type_first c) fits in
    ap (λ l. of_bytes (take 4 (pack l))) (type_first c) ∙ take-pack 4 n (after_type c) fits'.0

-- What is read with the widths of the first fields.
read_as :
    (c : GpuCommand) (front rest : List (ℕ × ℕ))
    → fields c ≡ front ++ rest
    → All FitsWidth (fields c)
    → spec_layout (ctrl_type_number (header c).type_) ≡ some (map (λ f. f.0) front)
    → device_read (to_bytes c) ≡ some (map (λ f. f.1) front)
unfolding device_read to_bytes
read_as c front rest split fits layout =
    ap (λ n. spec_layout n >>= λ widths. some (unpack widths (to_bytes c))) (type_read c fits)
    ∙ ap (λ l. l >>= λ widths. some (unpack widths (to_bytes c))) layout
    ∙ ap (λ l. some (unpack (map (λ f. f.0) front) (pack l))) split
    ∙ ap (λ l. some (unpack (map (λ f. f.0) front) l)) (pack-append front rest)
    ∙ ap some (
        unpack-pack front (pack rest)
          (All-front FitsWidth front rest (subst (All FitsWidth) split fits)))

-- A device that reads a command by the layout of the specification finds the values of the fields of
-- its struct, when they fit into their widths, for every command but those that create a context or
-- submit 3d commands.
pub device_read-to_bytes :
    (c : GpuCommand)
    → IsSent c
    → All FitsWidth (fields c)
    → device_read (to_bytes c) ≡ some (map (λ f. f.1) (fields c))
unfolding widths
device_read-to_bytes c sent fits =
    read_as c (fields c) [] (sym (append-nil (fields c))) fits (sent_layout sent)

-- When the values of the command fit into their fields, a device reads the first word of its buffer
-- for the padding that the struct lacks.
pub device_read-submit_3d :
    (c : CmdSubmit3d) (first : ℕ) (later : List ℕ)
    → c.header.type_ ≡ Enums.cmd_submit_3d
    → c.buffer ≡ first ∷ later
    → All FitsWidth (fields (submit_3d c))
    → device_read (to_bytes (submit_3d c))
      ≡ some (map (λ f. f.1) (hdr_fields c.header) ++ (c.len ∷ first ∷ []))
unfolding fields words hdr_fields spec_layout ctrl_type_number
device_read-submit_3d c first later type buffer fits =
    read_as (submit_3d c) (hdr_fields c.header ++ ((4, c.len) ∷ (4, first) ∷ []))
      (words later ++ ((4, c.unspecified) ∷ []))
      (ap (λ b. hdr_fields c.header ++ ((4, c.len) ∷ (words b ++ ((4, c.unspecified) ∷ []))))
        buffer)
      fits (ap (λ t. spec_layout (ctrl_type_number t)) type)

-- The arrays have the lengths that their types say.
abbrev pub HasSize : GpuCommand → Type 0
HasSize (ctx_create c) = length c.debug_name ≡ 64
HasSize (submit_3d c) = length c.buffer ≡ 512
HasSize _ = Unit {0}

total_width-words :
    (vs : List ℕ) (rest : List (ℕ × ℕ))
    → total_width (words vs ++ rest) ≡ 4 * length vs + total_width rest
unfolding words
total_width-words [] rest = omega arith
total_width-words (v ∷ vs) rest = omega (arith, total_width-words vs rest)

total_width-le : (c : GpuCommand) → HasSize c → total_width (fields c) ≤ 4096
unfolding fields hdr_fields rect_fields args_fields
total_width-le (ctrl_hdr h) sized = omega arith
total_width-le (get_capset_info c) sized = omega arith
total_width-le (resource_create_2d c) sized = omega arith
total_width-le (resource_attach_backing c) sized = omega arith
total_width-le (set_scanout c) sized = omega arith
total_width-le (transfer_to_host_2d c) sized = omega arith
total_width-le (resource_flush c) sized = omega arith
total_width-le (ctx_create c) sized =
    omega
      (arith, total_width-words c.debug_name [], ap total_width (append-nil (words c.debug_name)))
total_width-le (ctx_attach_resource c) sized = omega arith
total_width-le (resource_create_3d c) sized = omega arith
total_width-le (submit_3d c) sized =
    omega (arith, total_width-words c.buffer ((4, c.unspecified) ∷ []))

-- Every command fits into the page of 4096 bytes that a descriptor points at.
pub to_bytes-page : (c : GpuCommand) → HasSize c → length (to_bytes c) ≤ 4096
unfolding to_bytes
to_bytes-page c sized = omega (arith, length-pack (fields c), total_width-le c sized)
