-- ===== src/Framebuffer/Pixels.antt =====
-- The pixels of a new framebuffer, row by row.
use fomos.Common.{
  ℕ, zero, suc, ◌+◌, ◌*◌, ◌%◌, ◌^◌, ◌<◌, ◌≡◌, refl, ap, ap₂, ◌∙◌, some, List, [], ◌∷◌, ◌++◌, length,
  length-append, get_elem?, arith,
}
use fomos.Framebuffer.{Rgba, push_row, push_rows, new_pixels}

-- The color of a column and a row.
abbrev pub pixel : ℕ → ℕ → Rgba
pixel x y = record { r = x % 2 ^ 8; g = y % 2 ^ 8; b = 0; a = 0 }

module _ {A : Type 0} where
  get_elem?-append_left :
      (xs ys : List A) (i : ℕ) → i < length xs → get_elem? (xs ++ ys) i ≡ get_elem? xs i
  get_elem?-append_left [] ys i h = absurd (omega arith)
  get_elem?-append_left (x ∷ xs) ys zero h = refl
  get_elem?-append_left (x ∷ xs) ys (suc i) h = get_elem?-append_left xs ys i (omega arith)

  get_elem?-append_right :
      (xs ys : List A) (i n : ℕ) → n ≡ length xs → get_elem? (xs ++ ys) (n + i) ≡ get_elem? ys i
  get_elem?-append_right [] ys i n h = ap (get_elem? ys) (omega arith)
  get_elem?-append_right (x ∷ xs) ys i zero h = absurd (omega arith)
  get_elem?-append_right (x ∷ xs) ys i (suc n) h =
      ap (get_elem? (x ∷ (xs ++ ys))) (suc_add n i) ∙ get_elem?-append_right xs ys i n (omega arith)
    where
      suc_add : (n i : ℕ) → suc n + i ≡ suc (n + i)
      suc_add n i = omega arith

length-push_row : (y x n : ℕ) → length (push_row y x n) ≡ n
unfolding push_row
length-push_row y x zero = refl
length-push_row y x (suc n) = ap suc (length-push_row y (x + 1) n)

get_elem?-push_row : (y x n i : ℕ) → i < n → get_elem? (push_row y x n) i ≡ some (pixel (x + i) y)
unfolding push_row
get_elem?-push_row y x zero i h = absurd (omega arith)
get_elem?-push_row y x (suc n) zero h = ap (λ k. some (pixel k y)) (omega arith)
get_elem?-push_row y x (suc n) (suc i) h =
    get_elem?-push_row y (x + 1) n i (omega arith) ∙ ap (λ k. some (pixel k y)) (omega arith)

length-push_rows : (w y n : ℕ) → length (push_rows w y n) ≡ n * w
unfolding push_rows
length-push_rows w y zero = omega arith
length-push_rows w y (suc n) = omega (
  arith,
  length-append (push_row y 0 w) (push_rows w (y + 1) n),
  length-push_row y 0 w,
  length-push_rows w (y + 1) n,
)

get_elem?-push_rows :
    (w y n i x : ℕ)
    → i < n
    → x < w
    → get_elem? (push_rows w y n) (i * w + x) ≡ some (pixel x (y + i))
unfolding push_rows
get_elem?-push_rows w y zero i x hi hx = absurd (omega arith)
get_elem?-push_rows w y (suc n) zero x hi hx =
    ap (get_elem? (push_row y 0 w ++ push_rows w (y + 1) n)) (omega arith)
    ∙ get_elem?-append_left (push_row y 0 w) (push_rows w (y + 1) n) x
        (omega (arith, length-push_row y 0 w))
    ∙ get_elem?-push_row y 0 w x hx
    ∙ ap₂ (λ i j. some (pixel i j)) (omega arith) (omega arith)
get_elem?-push_rows w y (suc n) (suc i) x hi hx =
    ap (get_elem? (push_row y 0 w ++ push_rows w (y + 1) n)) (omega arith)
    ∙ get_elem?-append_right (push_row y 0 w) (push_rows w (y + 1) n) (i * w + x) w
        (omega (arith, length-push_row y 0 w))
    ∙ get_elem?-push_rows w (y + 1) n i x (omega arith) hx
    ∙ ap (λ j. some (pixel x j)) (omega arith)

-- A new framebuffer has w * h pixels, and that of a column and a row has their numbers, of eight
-- bits, for its red and green.
pub new_pixels-at :
    (w h x y : ℕ)
    → x < w
    → y < h
    → (length (new_pixels w h) ≡ h * w)
      × (get_elem? (new_pixels w h) (y * w + x) ≡ some (pixel x y))
unfolding new_pixels
new_pixels-at w h x y hx hy = (
  length-push_rows w 0 h,
  get_elem?-push_rows w 0 h y x hy hx ∙ ap (λ j. some (pixel x j)) (omega arith),
)
