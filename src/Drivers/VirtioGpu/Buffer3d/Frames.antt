-- ===== src/Drivers/VirtioGpu/Buffer3d/Frames.antt =====
-- The buffer of 3d commands as its reader takes it apart: by the lengths in the first words.
use fomos.Common.{
  ℕ, zero, suc, ◌+◌, ◌*◌, ◌/◌, ◌%◌, ◌^◌, ◌<◌, ◌≡◌, refl, sym, ap, ap₂, ◌∙◌, List, [], ◌∷◌, ◌++◌,
  Option, none, some, foldl, map, take, drop, length, length-append, All, leb, ◌==◌, if◌then◌else◌,
  append_assoc, append-nil, arith, if_false, ==_ne,
}
use mathlib.Core.Option
use fomos.Drivers.VirtioGpu.Enums.{cmd_submit_3d}
use fomos.Drivers.VirtioGpu.Enums3d.{cmd_3d_number, object_type_number}
use fomos.Drivers.VirtioGpu.Commands.{CmdSubmit3d}
use fomos.Drivers.VirtioGpu.Buffer3d.{
  cmd_clear, cmd_set_framebuffer_state, cmd_create_surface, Call3d, clear, set_framebuffer_state,
  create_surface, issue, pad_512, submit_padded, submit,
}
use fomos.Drivers.VirtioGpu.Buffer3d.Padding.{pad_512_long}

-- A command as it is read: its number, the type of its object and its words.
pub record Frame : Type 0 where
  pub command : ℕ
  pub object : ℕ
  pub args : List ℕ

abbrev frame_at : ℕ → ℕ → List ℕ → Frame
frame_at command object args = record { command = command; object = object; args = args }

-- The commands of a buffer; `none` when one reaches beyond the end. A word of fuel for each word of
-- the buffer is enough.
unfoldable pub read_frames : ℕ → List ℕ → Option (List Frame)
read_frames fuel [] = some []
read_frames zero (word ∷ words) = none
read_frames (suc fuel) (word ∷ words) =
    let len = word / 2 ^ 16 in
    let first = frame_at (word % 2 ^ 8) (word / 2 ^ 8 % 2 ^ 8) (take len words) in
    let rest = read_frames fuel (drop len words) in
    if leb len (length words) then Option.map (λ l. first ∷ l) rest else none

-- What a call asks for.
unfoldable pub frame_of : Call3d → Frame
frame_of (clear buffers (r, g, b, a) depth stencil) = record {
  command = 7;
  object = 0;
  args = buffers ∷ r ∷ g ∷ b ∷ a ∷ 0 ∷ 0 ∷ 0 ∷ [];
}
frame_of (set_framebuffer_state handles) = record {
  command = 5;
  object = 0;
  args = length handles ∷ 0 ∷ handles;
}
frame_of (create_surface handle format) = record {
  command = 1;
  object = 8;
  args = handle ∷ handle ∷ format ∷ 0 ∷ 0 ∷ [];
}

-- A frame whose length, type and number fit into the first word.
pub record IsFrame (f : Frame) : Type 0 where
  pub command_fits : f.command < 2 ^ 8
  pub object_fits : f.object < 2 ^ 8
  pub length_fits : length f.args < 2 ^ 16

encode : Frame → List ℕ
encode f = (length f.args * 2 ^ 16 + f.object * 2 ^ 8 + f.command) ∷ f.args

encode_all : List Frame → List ℕ
unfolding encode
encode_all [] = []
encode_all (f ∷ frames) = encode f ++ encode_all frames

-- The words that the commands take.
abbrev pub total : List Frame → ℕ
total [] = 0
total (f ∷ frames) = 1 + length f.args + total frames

length-encode_all : (frames : List Frame) → length (encode_all frames) ≡ total frames
unfolding encode_all encode
length-encode_all [] = refl
length-encode_all (f ∷ frames) =
    omega (arith, length-append f.args (encode_all frames), length-encode_all frames)

-- The lists of handles are short enough for the length field.
abbrev pub IsShort : Call3d → Type 0
IsShort (clear buffers rgba depth stencil) = Unit {0}
IsShort (set_framebuffer_state handles) = length handles + 2 < 2 ^ 16
IsShort (create_surface handle format) = Unit {0}

issue_lem :
    (buffer : List ℕ) (c : Call3d) → IsShort c → issue buffer c ≡ buffer ++ encode (frame_of c)
unfolding issue cmd_clear cmd_set_framebuffer_state cmd_create_surface frame_of encode cmd_3d_number
    object_type_number
issue_lem buffer (clear buffers (r, g, b, a) depth stencil) short = refl
issue_lem buffer (set_framebuffer_state handles) short =
    ap₂ (λ h n. buffer ++ (h ∷ n ∷ 0 ∷ handles)) (omega arith) (omega arith)
issue_lem buffer (create_surface handle format) short = refl

foldl-issue :
    (buffer : List ℕ) (calls : List Call3d)
    → All IsShort calls
    → foldl issue buffer calls ≡ buffer ++ encode_all (map frame_of calls)
unfolding encode_all
foldl-issue buffer [] short = sym (append-nil buffer)
foldl-issue buffer (c ∷ calls) (first, short) =
    ap (λ b. foldl issue b calls) (issue_lem buffer c first)
    ∙ foldl-issue (buffer ++ encode (frame_of c)) calls short
    ∙ append_assoc buffer (encode (frame_of c)) (encode_all (map frame_of calls))

-- What a command has when a device reads from it the calls that it was made of.
pub record Carries (calls : List Call3d) (c : CmdSubmit3d) : Type 0 where
  pub full : length c.buffer ≡ 512
  pub used : c.len ≡ total (map frame_of calls)
  pub read : read_frames c.len (take c.len c.buffer) ≡ some (map frame_of calls)
  pub type : c.header.type_ ≡ cmd_submit_3d
  pub context : c.header.ctx_id ≡ 1

-- More words than the buffer has places for are a panic.
pub submit-none :
    (unspecified : ℕ) (calls : List Call3d)
    → All IsShort calls
    → 512 < total (map frame_of calls)
    → submit unspecified calls ≡ none
unfolding submit submit_padded
submit-none unspecified calls short big =
    let words = foldl issue [] calls in
    let frames = map frame_of calls in
    let size : length words ≡ total frames =
      ap length (foldl-issue [] calls short) ∙ length-encode_all frames in
    let same : length (pad_512 512 words) ≡ length words =
      ap length (pad_512_long 512 words (omega arith)) in
    if_false (length (pad_512 512 words) == 512) _ none
      (==_ne (length (pad_512 512 words)) 512 (λ e. absurd (omega arith)))
