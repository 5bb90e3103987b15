-- ===== src/Drivers/VirtioGpu/Buffer3d/Padding.antt =====
-- The loop that pads the buffer of 3d commands to 512 words.
use fomos.Common.{
  ℕ, zero, suc, ◌+◌, ◌≤◌, ◌<◌, ◌≡◌, refl, sym, ◌∙◌, List, [], ◌∷◌, ◌++◌, length, length-append, ltb,
  append_assoc, append-nil, arith, if_true, if_false, lt→ltb, replicate,
}
use fomos.Drivers.VirtioGpu.Buffer3d.{pad_512}

-- The loop adds the zeros that are missing.
pub pad_512_short :
    (fuel k : ℕ) (buffer : List ℕ)
    → length buffer + k ≡ 512
    → k ≤ fuel
    → pad_512 fuel buffer ≡ buffer ++ replicate k 0
unfolding pad_512
pad_512_short zero zero buffer h enough = sym (append-nil buffer)
pad_512_short zero (suc k) buffer h enough = absurd (omega arith)
pad_512_short (suc fuel) zero buffer h enough =
    if_false (ltb (length buffer) 512) (pad_512 fuel (buffer ++ (0 ∷ []))) buffer (ground arith)
    ∙ sym (append-nil buffer)
pad_512_short (suc fuel) (suc k) buffer h enough =
    if_true (ltb (length buffer) 512) (pad_512 fuel (buffer ++ (0 ∷ []))) buffer
      (lt→ltb (length buffer) 512 (omega arith))
    ∙ pad_512_short fuel k (buffer ++ (0 ∷ [])) (omega (arith, length-append buffer (0 ∷ [])))
        (omega arith)
    ∙ append_assoc buffer (0 ∷ []) (replicate k 0)

pub pad_512_long : (fuel : ℕ) (buffer : List ℕ) → 512 < length buffer → pad_512 fuel buffer ≡ buffer
unfolding pad_512
pad_512_long zero buffer h = refl
pad_512_long (suc fuel) buffer h =
    if_false (ltb (length buffer) 512) (pad_512 fuel (buffer ++ (0 ∷ []))) buffer (ground arith)
