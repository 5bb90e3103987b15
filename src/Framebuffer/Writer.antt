-- ===== src/Framebuffer/Writer.antt =====
-- bootloader/kernel/src/framebuffer.rs: FrameBufferWriter, which draws the characters of the log. The
-- font is the crate noto_sans_mono_bitmap, a parameter. `none` is a panic.
pub mod Drawing
pub mod Text
mod Tests
use fomos.Common.{
  ℕ, zero, suc, ◌+◌, ◌*◌, ◌/◌, Bool, true, false, Option, none, some, List, [], ◌∷◌, ◌++◌, ltb, leb,
  ◌==◌, if◌then◌else◌, length, take, drop, get_elem?, replicate, guard, ◌>>=◌, ◌>>◌,
}

pub data PixelFormat : Type 0 where
  rgb bgr u8 other : PixelFormat

pub record FrameBufferInfo : Type 0 where
  pub width : ℕ
  pub height : ℕ
  pub stride : ℕ
  pub bytes_per_pixel : ℕ
  pub pixel_format : PixelFormat

pub record FrameBufferWriter : Type 0 where
  pub framebuffer : List ℕ
  pub info : FrameBufferInfo
  pub x_pos : ℕ
  pub y_pos : ℕ
  pub level : ℕ

pub record RasterizedChar : Type 0 where
  pub raster : List (List ℕ)
  pub width : ℕ

abbrev pub line_spacing : ℕ
line_spacing = 2

abbrev pub letter_spacing : ℕ
letter_spacing = 0

abbrev pub border_padding : ℕ
border_padding = 1

-- RasterHeight::Size16
abbrev pub char_raster_height : ℕ
char_raster_height = 16

unfoldable pub carriage_return : FrameBufferWriter → FrameBufferWriter
carriage_return w = record w { x_pos = border_padding }

unfoldable pub newline : FrameBufferWriter → FrameBufferWriter
unfolding carriage_return
newline w = carriage_return (record w { y_pos = w.y_pos + (char_raster_height + line_spacing) })

unfoldable pub clear : FrameBufferWriter → FrameBufferWriter
clear w = record w {
  x_pos = border_padding;
  y_pos = border_padding;
  framebuffer = replicate (length w.framebuffer) 0;
}

unfoldable pub new : List ℕ → FrameBufferInfo → FrameBufferWriter
unfolding clear
new framebuffer info =
    clear (record { framebuffer = framebuffer; info = info; x_pos = 0; y_pos = 0; level = 0 })

unfoldable pub color_of : PixelFormat → ℕ → ℕ → ℕ → ℕ → Option (List ℕ)
color_of rgb intensity r g b = some (r ∷ g ∷ b ∷ 0 ∷ [])
color_of bgr intensity r g b = some (b ∷ g ∷ r ∷ 0 ∷ [])
color_of u8 intensity r g b = some ((if ltb 200 intensity then 0xf else 0) ∷ 0 ∷ 0 ∷ 0 ∷ [])
color_of other intensity r g b = none

-- `framebuffer[at..(at + n)].copy_from_slice(&color[..n])`
unfoldable pub copy_slice : List ℕ → ℕ → ℕ → List ℕ → Option (List ℕ)
copy_slice framebuffer at n color = do
  guard (leb (at + n) (length framebuffer))
  guard (leb n (length color))
  some (take at framebuffer ++ (take n color ++ drop (at + n) framebuffer))

-- The byte at the offset is read in the end, and has to be there.
unfoldable pub write_pixel : FrameBufferWriter → ℕ → ℕ → ℕ → Option FrameBufferWriter
write_pixel w x y intensity = do
  let pixel_offset = y * w.info.stride + x
  g ← get_elem? (intensity ∷ 0 ∷ []) w.level
  b ← get_elem? (intensity / 2 ∷ 0 ∷ []) w.level
  color ← color_of w.info.pixel_format intensity intensity g b
  let byte_offset = pixel_offset * w.info.bytes_per_pixel
  framebuffer ← copy_slice w.framebuffer byte_offset w.info.bytes_per_pixel color
  read ← get_elem? framebuffer byte_offset
  some (record w { framebuffer = framebuffer })

-- A row from its `x`-th byte on, and the rows from the `y`-th on.
unfoldable pub write_row : FrameBufferWriter → ℕ → ℕ → List ℕ → Option FrameBufferWriter
write_row w x y [] = some w
write_row w x y (byte ∷ row) = do
  w' ← write_pixel w (w.x_pos + x) (w.y_pos + y) byte
  write_row w' (x + 1) y row

unfoldable pub write_rows : FrameBufferWriter → ℕ → List (List ℕ) → Option FrameBufferWriter
write_rows w y [] = some w
write_rows w y (row ∷ rows) = do w' ← write_row w 0 y row; write_rows w' (y + 1) rows

unfoldable pub write_rendered_char : FrameBufferWriter → RasterizedChar → Option FrameBufferWriter
write_rendered_char w rendered_char = do
  w' ← write_rows w 0 rendered_char.raster
  some (record w' { x_pos = w'.x_pos + (rendered_char.width + letter_spacing) })

-- `get_raster` and the width of the characters are the font's; 10 and 13 are '\n' and '\r', and
-- 0xFFFD is the character for those that the font does not have.
module _ (get_raster : ℕ → Option RasterizedChar) (char_raster_width : ℕ) where
  unfoldable pub get_char_raster : ℕ → Option RasterizedChar
  get_char_raster c = elim (get_raster c) [ none ↦ get_raster 0xFFFD | some r ↦ some r ]

  -- A new line at the right edge, and an empty screen at the lower one.
  unfoldable pub place : FrameBufferWriter → FrameBufferWriter
  unfolding newline clear
  place w =
      let w1 = if leb w.info.width (w.x_pos + char_raster_width) then newline w else w in
      if leb w1.info.height (w1.y_pos + char_raster_height + border_padding) then clear w1 else w1

  unfoldable pub write_char : FrameBufferWriter → ℕ → Option FrameBufferWriter
  unfolding newline carriage_return
  write_char w c =
      let drawn = (do rendered ← get_char_raster c; write_rendered_char (place w) rendered) in
      if c == 10 then some (newline w) else if c == 13 then some (carriage_return w) else drawn

  unfoldable pub write_chars : FrameBufferWriter → List ℕ → Option FrameBufferWriter
  write_chars w [] = some w
  write_chars w (c ∷ cs) = do w' ← write_char w c; write_chars w' cs
