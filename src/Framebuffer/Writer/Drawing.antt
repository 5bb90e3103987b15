-- ===== src/Framebuffer/Writer/Drawing.antt =====
-- The pixels of a character, as bytes of the buffer.
use native.Mathlib.Nat.{mul-le-mul_right, add-mul}
use fomos.Common.{
  le→leb, ℕ, zero, suc, ◌+◌, ◌*◌, ◌/◌, ◌≤◌, ◌<◌, ◌≡◌, refl, sym, ap, subst, ◌∙◌, some, List, [],
  ◌∷◌, ◌++◌, length, length-append, length-drop, take, drop, get_elem?, get_elem?-some, All, arith,
}
use fomos.Framebuffer.Writer.{
  PixelFormat, rgb, bgr, u8, other, FrameBufferInfo, FrameBufferWriter, color_of, copy_slice,
  write_pixel, write_row, write_rows,
}

abbrev IsSupported : PixelFormat → Type 0
IsSupported other = ⊥
IsSupported _ = Unit {0}

-- A buffer of `n` bytes for the pixels of the screen, in a format of the logger.
pub record Fits (info : FrameBufferInfo) (level n : ℕ) : Type 0 where
  pub covers : info.height * info.stride * info.bytes_per_pixel ≤ n
  pub wide : info.width ≤ info.stride
  pub bytes : info.bytes_per_pixel ≤ 4
  pub some_byte : 1 ≤ info.bytes_per_pixel
  pub levels : level < 2
  pub format : IsSupported info.pixel_format

length-take : (n : ℕ) (xs : List ℕ) → n ≤ length xs → length (take n xs) ≡ n
length-take zero xs h = refl
length-take (suc n) [] h = absurd (omega arith)
length-take (suc n) (x ∷ xs) h = ap suc (length-take n xs (omega arith))

abbrev pub with_bytes : FrameBufferWriter → List ℕ → FrameBufferWriter
with_bytes w bytes = record w { framebuffer = bytes }

-- The bytes of a pixel of the screen lie in the buffer.
pixel_within :
    (info : FrameBufferInfo) (level n x y : ℕ)
    → Fits info level n
    → x < info.width
    → y < info.height
    → (y * info.stride + x) * info.bytes_per_pixel + info.bytes_per_pixel ≤ n
pixel_within info level n x y fits hx hy = omega (
  arith,
  fits.covers,
  mul-le-mul_right info.bytes_per_pixel in_rows,
  add-mul (y * info.stride + x) 1 info.bytes_per_pixel,
)
  where
    in_rows : y * info.stride + x + 1 ≤ info.height * info.stride
    in_rows = omega (
      arith,
      fits.wide,
      hx,
      mul-le-mul_right {m = y + 1} {n = info.height} info.stride (omega arith),
      add-mul y 1 info.stride,
    )

color_of-some :
    (format : PixelFormat) (intensity r g b : ℕ)
    → IsSupported format
    → (color : List ℕ) × (color_of format intensity r g b ≡ some color) × (length color ≡ 4)
unfolding color_of
color_of-some rgb intensity r g b ok = (_, refl, refl)
color_of-some bgr intensity r g b ok = (_, refl, refl)
color_of-some u8 intensity r g b ok = (_, refl, refl)
color_of-some other intensity r g b ok = absurd ok

copy_slice-some :
    (bytes : List ℕ) (at n : ℕ) (color : List ℕ)
    → at + n ≤ length bytes
    → n ≤ length color
    → (bytes' : List ℕ) × (copy_slice bytes at n color ≡ some bytes')
      × (length bytes' ≡ length bytes)
unfolding copy_slice
copy_slice-some bytes at n color h k =
    let front : List ℕ = take at bytes in
    let middle : List ℕ = take n color in
    let back : List ℕ = drop (at + n) bytes in
    (
      front ++ (middle ++ back),
      rw (le→leb (at + n) (length bytes) h, le→leb n (length color) k) refl,
      omega (
        arith,
        length-append front (middle ++ back),
        length-append middle back,
        length-take at bytes (omega arith),
        length-take n color k,
        length-drop (at + n) bytes,
      ),
    )

pixel_run :
    (w : FrameBufferWriter) (x y intensity g b : ℕ) (color bytes : List ℕ) (read : ℕ)
    → get_elem? (intensity ∷ 0 ∷ []) w.level ≡ some g
    → get_elem? (intensity / 2 ∷ 0 ∷ []) w.level ≡ some b
    → color_of w.info.pixel_format intensity intensity g b ≡ some color
    → copy_slice w.framebuffer
        ((y * w.info.stride + x) * w.info.bytes_per_pixel)
        w.info.bytes_per_pixel
        color
      ≡ some bytes
    → get_elem? bytes ((y * w.info.stride + x) * w.info.bytes_per_pixel) ≡ some read
    → write_pixel w x y intensity ≡ some (with_bytes w bytes)
unfolding write_pixel
pixel_run w x y intensity g b color bytes read eg eb ec ed er = rw (eg, eb, ec, ed, er) refl

write_pixel-some :
    (w : FrameBufferWriter) (x y intensity : ℕ)
    → Fits w.info w.level (length w.framebuffer)
    → x < w.info.width
    → y < w.info.height
    → (bytes : List ℕ) × (write_pixel w x y intensity ≡ some (with_bytes w bytes))
      × (length bytes ≡ length w.framebuffer)
write_pixel-some w x y intensity fits hx hy =
    let at = (y * w.info.stride + x) * w.info.bytes_per_pixel in
    let inside = pixel_within w.info w.level (length w.framebuffer) x y fits hx hy in
    let (g, eg) = get_elem?-some (intensity ∷ 0 ∷ []) w.level fits.levels in
    let (b, eb) = get_elem?-some (intensity / 2 ∷ 0 ∷ []) w.level fits.levels in
    let (color, ec, four) = color_of-some w.info.pixel_format intensity intensity g b fits.format in
    let (bytes, ed, same) =
      copy_slice-some w.framebuffer at w.info.bytes_per_pixel color inside
        (omega (arith, fits.bytes, four)) in
    let (read, er) = get_elem?-some bytes at (omega (arith, inside, same, fits.some_byte)) in
    (bytes, pixel_run w x y intensity g b color bytes read eg eb ec ed er, same)

-- A part of a character that lies on the screen.
write_row-some :
    (w : FrameBufferWriter) (x y : ℕ) (row : List ℕ)
    → Fits w.info w.level (length w.framebuffer)
    → w.x_pos + x + length row ≤ w.info.width
    → w.y_pos + y < w.info.height
    → (bytes : List ℕ) × (write_row w x y row ≡ some (with_bytes w bytes))
      × (length bytes ≡ length w.framebuffer)
unfolding write_row
write_row-some w x y [] fits hx hy = (w.framebuffer, refl, refl)
write_row-some w x y (byte ∷ row) fits hx hy =
    let (bytes, e, same) =
      write_pixel-some w (w.x_pos + x) (w.y_pos + y) byte fits (omega arith) hy in
    let (bytes', e', same') =
      write_row-some (with_bytes w bytes) (x + 1) y row
        (subst (Fits w.info w.level) (sym same) fits) (omega arith) hy in
    (bytes', rw e e', same' ∙ same)

pub write_rows-some :
    (w : FrameBufferWriter) (y cols : ℕ) (rows : List (List ℕ))
    → Fits w.info w.level (length w.framebuffer)
    → All (λ row. length row ≤ cols) rows
    → w.x_pos + cols ≤ w.info.width
    → w.y_pos + y + length rows ≤ w.info.height
    → (bytes : List ℕ) × (write_rows w y rows ≡ some (with_bytes w bytes))
      × (length bytes ≡ length w.framebuffer)
unfolding write_rows
write_rows-some w y cols [] fits narrow hx hy = (w.framebuffer, refl, refl)
write_rows-some w y cols (row ∷ rows) fits (first, narrow) hx hy =
    let (bytes, e, same) = write_row-some w 0 y row fits (omega arith) (omega arith) in
    let (bytes', e', same') =
      write_rows-some (with_bytes w bytes) (y + 1) cols rows
        (subst (Fits w.info w.level) (sym same) fits) narrow hx (omega arith) in
    (bytes', rw e e', same' ∙ same)
