-- ===== src/Common/Fields.antt =====
-- Fields of a word: what a mask with a hole and a shifted value make of it.
use Prim.Native.Nat.{ℕ, zero, suc, ◌+◌, ◌-◌, ◌*◌, ◌/◌, ◌%◌, ◌^◌, ◌<◌, bit_and, bit_or}
use mathlib.Core.Path.{◌≡◌, sym, ap, ap₂, ◌∙◌}
use native.Mathlib.Nat.{
  pow-suc, div-div-eq-div-mul, mul_comm, mul_assoc, mod-eq_of_lt, div-lt_iff_lt-mul, div-one,
  mul-one,
}
use native.Mathlib.Omega.{arith}
use fomos.Common.Bits.{
  bit_and_step, bit_or_step, bit_and_mask, bit_and-shl, bit_or_disjoint, pow-pos, double-mod,
}

-- `w` zeros at bit `sh`, with ones below them and `r` ones above.
unfoldable pub hole : ℕ → ℕ → ℕ → ℕ
hole r w zero = (2 ^ r - 1) * 2 ^ w
hole r w (suc sh) = hole r w sh * 2 + 1

-- `x` with `d` in its field of `w` bits from bit `sh` on.
abbrev pub replaced : ℕ → ℕ → ℕ → ℕ → ℕ
replaced x w sh d = (x / 2 ^ sh / 2 ^ w * 2 ^ w + d) * 2 ^ sh + x % 2 ^ sh

replace_low :
    (r w x d : ℕ)
    → x < 2 ^ r * 2 ^ w
    → d < 2 ^ w
    → bit_or (bit_and x ((2 ^ r - 1) * 2 ^ w)) d ≡ x / 2 ^ w * 2 ^ w + d
replace_low r w x d small fits =
    ap (λ a. bit_or a d) (bit_and-shl w x (2 ^ r - 1))
    ∙ ap (λ a. bit_or (a * 2 ^ w) d)
        (bit_and_mask r (x / 2 ^ w) ∙ mod-eq_of_lt ((div-lt_iff_lt-mul (pow-pos w)).1 small))
    ∙ bit_or_disjoint w (x / 2 ^ w) d fits

pub replace_field :
    (sh r w x d : ℕ)
    → x < 2 ^ r * 2 ^ w * 2 ^ sh
    → d < 2 ^ w
    → bit_or (bit_and x (hole r w sh)) (d * 2 ^ sh) ≡ replaced x w sh d
unfolding hole
replace_field zero r w x d small fits =
    ap (bit_or (bit_and x (hole r w 0))) (mul-one d)
    ∙ replace_low r w x d (omega arith) fits
    ∙ omega (arith, ap (λ y. y / 2 ^ w * 2 ^ w) (div-one x))
replace_field (suc sh) r w x d small fits =
    let m = hole r w sh * 2 + 1 in
    let low = bit_and_step x m in
    let below : m / 2 ≡ hole r w sh = omega arith in
    let twice = pow-suc 2 sh in
    let and_half : bit_and x m / 2 ≡ bit_and (x / 2) (hole r w sh) =
      omega (arith, low, ap (bit_and (x / 2)) below) in
    let and_low : bit_and x m % 2 ≡ x % 2 = omega (arith, low) in
    let d_twice : d * 2 ^ suc sh ≡ d * 2 ^ sh * 2 =
      ap (λ t. d * t) twice ∙ sym (mul_assoc d (2 ^ sh) 2) in
    let d_half : d * 2 ^ suc sh / 2 ≡ d * 2 ^ sh = omega (arith, d_twice) in
    let half_small : x / 2 < 2 ^ r * 2 ^ w * 2 ^ sh =
      omega (arith, small, ap (λ t. 2 ^ r * 2 ^ w * t) twice) in
    let joined = ap₂ bit_or and_half d_half ∙ replace_field sh r w (x / 2) d half_small fits in
    let step = bit_or_step (bit_and x m) (d * 2 ^ suc sh) in
    let quot : x / 2 ^ suc sh ≡ x / 2 / 2 ^ sh =
      ap (◌/◌ x) (twice ∙ mul_comm (2 ^ sh) 2) ∙ sym (div-div-eq-div-mul x 2 (2 ^ sh)) in
    let rest : x % 2 ^ suc sh ≡ (x / 2) % 2 ^ sh * 2 + x % 2 =
      ap (◌%◌ x) twice ∙ double-mod x (2 ^ sh) (pow-pos sh) in
    let halved : replaced x w (suc sh) d ≡ replaced (x / 2) w sh d * 2 + x % 2 =
      rw (quot, rest, twice) (omega arith) in
    omega (arith, step, joined, halved, and_low, d_twice)
