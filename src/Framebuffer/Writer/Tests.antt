-- ===== src/Framebuffer/Writer/Tests.antt =====
-- A text on a screen of two by seventeen pixels.
use fomos.Common.{[], ◌∷◌, replicate}
use fomos.Framebuffer.Writer.{u8, FrameBufferWriter, RasterizedChar}

abbrev dot : RasterizedChar
dot = record { raster = (255 ∷ []) ∷ []; width = 1 }

abbrev screen : FrameBufferWriter
screen = record {
  framebuffer = replicate 34 0;
  info = record { width = 2; height = 17; stride = 2; bytes_per_pixel = 1; pixel_format = u8 };
  x_pos = 9;
  y_pos = 9;
  level = 0;
}
