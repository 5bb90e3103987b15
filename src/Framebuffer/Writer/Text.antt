-- ===== src/Framebuffer/Writer/Text.antt =====
-- Texts on the screen: a new line at its right edge, and an empty page after its lower one.
use fomos.Common.{ℕ, ◌+◌, ◌≤◌, ◌≡◌, Option, some, length, ◌>>=◌, All}
use fomos.Framebuffer.Writer.{FrameBufferWriter, RasterizedChar}

-- What drawing leaves: all but the position and the bytes themselves.
pub record Same (w w' : FrameBufferWriter) : Type 0 where
  pub info : w'.info ≡ w.info
  pub level : w'.level ≡ w.level
  pub size : length w'.framebuffer ≡ length w.framebuffer

-- A font whose characters fit into the cells of the screen, and has the one for those it lacks.
pub record IsFont (get_raster : ℕ → Option RasterizedChar) (char_raster_width : ℕ) : Type 0 where
  pub backup : (r : RasterizedChar) × (get_raster 0xFFFD ≡ some r)
  pub cells :
      (c : ℕ) (r : RasterizedChar)
      → get_raster c ≡ some r
      → All (λ row. length row ≤ char_raster_width) r.raster × (length r.raster ≤ 16)

module _ (get_raster : ℕ → Option RasterizedChar) (char_raster_width : ℕ) where
  -- There is room for a character in both directions.
  IsPlaced : FrameBufferWriter → Type 0
  IsPlaced w = (w.x_pos + char_raster_width ≤ w.info.width) × (w.y_pos + 16 ≤ w.info.height)
