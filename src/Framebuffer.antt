-- ===== src/Framebuffer.antt =====
-- bootloader/kernel/src/framebuffer.rs: the buffer of pixels that the apps draw into.
pub mod Writer
pub mod Pixels
use fomos.Common.{ℕ, zero, suc, ◌+◌, ◌*◌, ◌%◌, ◌^◌, List, [], ◌∷◌, ◌++◌}

-- struct RGBA
pub record Rgba : Type 0 where
  pub r : ℕ
  pub g : ℕ
  pub b : ℕ
  pub a : ℕ

-- A Vec by its parts, as `from_raw_parts` takes them.
pub record RawVec : Type 0 where
  pub ptr : ℕ
  pub len : ℕ
  pub capacity : ℕ

-- struct FB
pub record Fb : Type 0 where
  pub pixels : RawVec
  pub backbuffer : RawVec
  pub w : ℕ
  pub h : ℕ

-- The loops of `FB::new`, `n` columns from `x` on and `n` rows from `y` on.
push_row : ℕ → ℕ → ℕ → List Rgba
push_row y x zero = []
push_row y x (suc n) = record { r = x % 2 ^ 8; g = y % 2 ^ 8; b = 0; a = 0 } ∷ push_row y (x + 1) n

push_rows : ℕ → ℕ → ℕ → List Rgba
unfolding push_row
push_rows w y zero = []
push_rows w y (suc n) = push_row y 0 w ++ push_rows w (y + 1) n

-- The pixels of `FB::new`, and those of its back buffer.
unfoldable pub new_pixels : ℕ → ℕ → List Rgba
unfolding push_rows
new_pixels w h = push_rows w 0 h

unfoldable pub update : Fb → ℕ → ℕ → ℕ → Fb
update fb vec w h = record fb {
  pixels = record { ptr = vec; len = h * w; capacity = w * h };
  w = w;
  h = h;
}
