-- ===== src/Common/Bits.antt =====
-- Shifts, masks and the bit operations at variables.
use Prim.Native.Nat.{
  ℕ, zero, suc, ◌+◌, ◌-◌, ◌*◌, ◌/◌, ◌%◌, ◌^◌, ◌≤◌, ◌<◌, min, max, bit_and, bit_or, digits,
  bit_and-bitwise, bit_or-bitwise,
}
use mathlib.Core.Path.{◌≡◌, refl, sym, ap, ap₂, ◌∙◌}
use native.Mathlib.Nat.{
  pow-suc, div-div-eq-div-mul, div-add-mod, add-mul-mod_self_left, mod-eq_of_lt, mod-lt, div-one,
  mul-one, mul_assoc, mul_comm,
}
use native.Mathlib.Omega.{arith}

abbrev pub shl : ℕ → ℕ → ℕ
shl a k = a * 2 ^ k

abbrev pub shr : ℕ → ℕ → ℕ
shr a k = a / 2 ^ k

-- Fuel from the left operand on does not change the digits.
digits_fuel :
    (base : ℕ → ℕ) (op : ℕ → ℕ → ℕ) (n m a b : ℕ)
    → a ≤ n
    → a ≤ m
    → digits base op n a b ≡ digits base op m a b
digits_fuel base op zero zero a b p q = refl
digits_fuel base op zero (suc m) zero b p q = refl
digits_fuel base op zero (suc m) (suc a) b p q = absurd (omega arith)
digits_fuel base op (suc n) zero zero b p q = refl
digits_fuel base op (suc n) zero (suc a) b p q = absurd (omega arith)
digits_fuel base op (suc n) (suc m) zero b p q = refl
digits_fuel base op (suc n) (suc m) (suc a) b p q =
    omega (arith, digits_fuel base op n m (suc a / 2) (b / 2) (omega arith) (omega arith))

-- The lowest binary digit of a conjunction and of a disjunction.
pub bit_and_step : (a b : ℕ) → bit_and a b ≡ bit_and (a / 2) (b / 2) * 2 + min (a % 2) (b % 2)
bit_and_step zero b = omega (arith, bit_and-bitwise 0 b, bit_and-bitwise 0 (b / 2))
bit_and_step (suc a) b = omega (
  arith,
  bit_and-bitwise (suc a) b,
  bit_and-bitwise (suc a / 2) (b / 2),
  digits_fuel (λ _. 0) min a (suc a / 2) (suc a / 2) (b / 2) (omega arith) (omega arith),
)

pub bit_or_step : (a b : ℕ) → bit_or a b ≡ bit_or (a / 2) (b / 2) * 2 + max (a % 2) (b % 2)
bit_or_step zero b = omega (arith, bit_or-bitwise 0 b, bit_or-bitwise 0 (b / 2))
bit_or_step (suc a) b = omega (
  arith,
  bit_or-bitwise (suc a) b,
  bit_or-bitwise (suc a / 2) (b / 2),
  digits_fuel (λ d. d) max a (suc a / 2) (suc a / 2) (b / 2) (omega arith) (omega arith),
)

bit_and-zero_below : (n a : ℕ) → a ≤ n → bit_and a 0 ≡ 0
bit_and-zero_below n zero h = refl
bit_and-zero_below zero (suc a) h = absurd (omega arith)
bit_and-zero_below (suc n) (suc a) h =
    omega (arith, bit_and_step (suc a) 0, bit_and-zero_below n (suc a / 2) (omega arith))

pub bit_and-zero : (a : ℕ) → bit_and a 0 ≡ 0
bit_and-zero a = bit_and-zero_below a a (omega arith)

bit_or-zero_below : (n a : ℕ) → a ≤ n → bit_or a 0 ≡ a
bit_or-zero_below n zero h = refl
bit_or-zero_below zero (suc a) h = absurd (omega arith)
bit_or-zero_below (suc n) (suc a) h =
    omega (arith, bit_or_step (suc a) 0, bit_or-zero_below n (suc a / 2) (omega arith))

pub bit_or-zero : (a : ℕ) → bit_or a 0 ≡ a
bit_or-zero a = bit_or-zero_below a a (omega arith)

pub pow-pos : (k : ℕ) → 0 < 2 ^ k
pow-pos zero = omega arith
pow-pos (suc k) = omega (arith, pow-suc 2 k, pow-pos k)

pub double-mod : (a p : ℕ) → 0 < p → a % (p * 2) ≡ (a / 2) % p * 2 + a % 2
double-mod a p h =
    ap (λ n. n % (p * 2)) split
    ∙ add-mul-mod_self_left low (p * 2) (a / 2 / p)
    ∙ mod-eq_of_lt (omega (arith, mod-lt (a / 2) h))
  where
    low : ℕ
    low = (a / 2) % p * 2 + a % 2

    split : a ≡ low + p * 2 * (a / 2 / p)
    split = omega (arith, div-add-mod (a / 2) p)

-- A mask of k ones is the remainder by 2 ^ k.
pub bit_and_mask : (k a : ℕ) → bit_and a (2 ^ k - 1) ≡ a % 2 ^ k
bit_and_mask zero a = omega (arith, bit_and-zero a)
bit_and_mask (suc k) a =
    rw (pow-suc 2 k, double-mod a (2 ^ k) (pow-pos k))
      (omega (arith, bit_and_step a (2 ^ k * 2 - 1), half, bit_and_mask k (a / 2), pow-pos k))
  where
    half : bit_and (a / 2) ((2 ^ k * 2 - 1) / 2) ≡ bit_and (a / 2) (2 ^ k - 1)
    half = ap (bit_and (a / 2)) (omega (arith, pow-pos k))

-- A mask whose k lowest digits are 0 reads the digits above them.
pub bit_and-shl : (k a m : ℕ) → bit_and a (m * 2 ^ k) ≡ bit_and (a / 2 ^ k) m * 2 ^ k
bit_and-shl zero a m = ap₂ bit_and (sym (div-one a)) (mul-one m) ∙ sym (mul-one _)
bit_and-shl (suc k) a m =
    rw (pow-suc 2 k, ← mul_assoc m (2 ^ k) 2)
      (bit_and_step a (m * 2 ^ k * 2) ∙ omega (arith, lower, bit_and-shl k (a / 2) m, upper))
  where
    lower : bit_and (a / 2) (m * 2 ^ k * 2 / 2) ≡ bit_and (a / 2) (m * 2 ^ k)
    lower = ap (bit_and (a / 2)) (omega arith)

    upper : bit_and (a / 2 / 2 ^ k) m * 2 ^ k ≡ bit_and (a / (2 ^ k * 2)) m * 2 ^ k
    upper =
        ap (λ n. bit_and n m * 2 ^ k)
          (div-div-eq-div-mul a 2 (2 ^ k) ∙ ap (◌/◌ a) (mul_comm 2 (2 ^ k)))

-- Numbers with no digit in common are joined by a sum.
pub bit_or_disjoint : (k a b : ℕ) → b < 2 ^ k → bit_or (a * 2 ^ k) b ≡ a * 2 ^ k + b
bit_or_disjoint zero a b h = ap₂ bit_or (mul-one a) (omega arith) ∙ bit_or-zero a ∙ omega arith
bit_or_disjoint (suc k) a b h =
    rw (pow-suc 2 k, ← mul_assoc a (2 ^ k) 2)
      (bit_or_step (a * 2 ^ k * 2) b
        ∙ omega (arith, lower, bit_or_disjoint k a (b / 2) (omega (arith, pow-suc 2 k))))
  where
    lower : bit_or (a * 2 ^ k * 2 / 2) (b / 2) ≡ bit_or (a * 2 ^ k) (b / 2)
    lower = ap (λ n. bit_or n (b / 2)) (omega arith)

zero-bit_or_below : (n b : ℕ) → b ≤ n → bit_or 0 b ≡ b
zero-bit_or_below n zero h = refl
zero-bit_or_below zero (suc b) h = absurd (omega arith)
zero-bit_or_below (suc n) (suc b) h =
    omega (arith, bit_or_step 0 (suc b), zero-bit_or_below n (suc b / 2) (omega arith))

bit_or_comm_below : (n a b : ℕ) → a ≤ n → bit_or a b ≡ bit_or b a
bit_or_comm_below n zero b h = zero-bit_or_below b b (omega arith) ∙ sym (bit_or-zero b)
bit_or_comm_below zero (suc a) b h = absurd (omega arith)
bit_or_comm_below (suc n) (suc a) b h = omega (
  arith,
  bit_or_step (suc a) b,
  bit_or_step b (suc a),
  bit_or_comm_below n (suc a / 2) (b / 2) (omega arith),
)

pub bit_or_comm : (a b : ℕ) → bit_or a b ≡ bit_or b a
bit_or_comm a b = bit_or_comm_below a a b (omega arith)

-- The same with the low number on the left.
pub bit_or_disjoint' : (k a b : ℕ) → b < 2 ^ k → bit_or b (a * 2 ^ k) ≡ a * 2 ^ k + b
bit_or_disjoint' k a b h = bit_or_comm b (a * 2 ^ k) ∙ bit_or_disjoint k a b h
