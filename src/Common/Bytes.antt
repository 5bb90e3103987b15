-- ===== src/Common/Bytes.antt =====
-- Integers as bytes, the lowest first, and the fields of a `repr(C)` struct one after the other.
use Prim.Native.Nat.{ℕ, zero, suc, ◌+◌, ◌*◌, ◌/◌, ◌%◌, ◌^◌, ◌<◌}
use mathlib.Core.Path.{◌≡◌, refl, sym, ap, ap₂, ◌∙◌}
use mathlib.Core.List.{List, [], ◌∷◌, ◌++◌, map, append_assoc}
use native.Mathlib.Nat.{pow-suc}
use native.Mathlib.Omega.{arith}
use fomos.Common.Lists.{length, take, drop, All, length-append}

-- The bytes of an integer of `n` bytes.
unfoldable pub le_bytes : ℕ → ℕ → List ℕ
le_bytes zero v = []
le_bytes (suc n) v = (v % 256) ∷ le_bytes n (v / 256)

unfoldable pub of_bytes : List ℕ → ℕ
of_bytes [] = 0
of_bytes (b ∷ bytes) = b + of_bytes bytes * 256

-- A field is its width in bytes and its value.
unfoldable pub pack : List (ℕ × ℕ) → List ℕ
unfolding le_bytes
pack [] = []
pack ((n, v) ∷ fields) = le_bytes n v ++ pack fields

unfoldable pub unpack : List ℕ → List ℕ → List ℕ
unfolding of_bytes
unpack [] bytes = []
unpack (n ∷ widths) bytes = of_bytes (take n bytes) ∷ unpack widths (drop n bytes)

abbrev pub FitsWidth : ℕ × ℕ → Type 0
FitsWidth (n, v) = v < 256 ^ n

abbrev pub total_width : List (ℕ × ℕ) → ℕ
total_width [] = 0
total_width ((n, v) ∷ fields) = n + total_width fields

pub length-le_bytes : (n v : ℕ) → length (le_bytes n v) ≡ n
unfolding le_bytes
length-le_bytes zero v = refl
length-le_bytes (suc n) v = ap suc (length-le_bytes n (v / 256))

pub length-pack : (fields : List (ℕ × ℕ)) → length (pack fields) ≡ total_width fields
unfolding pack
length-pack [] = refl
length-pack ((n, v) ∷ fields) =
    omega
      (arith, length-append (le_bytes n v) (pack fields), length-le_bytes n v, length-pack fields)

of_bytes-le_bytes : (n v : ℕ) → v < 256 ^ n → of_bytes (le_bytes n v) ≡ v
unfolding of_bytes le_bytes
of_bytes-le_bytes zero v h = omega arith
of_bytes-le_bytes (suc n) v h =
    omega (arith, of_bytes-le_bytes n (v / 256) (omega (arith, pow-suc 256 n)))

take-le_bytes : (n v : ℕ) (rest : List ℕ) → take n (le_bytes n v ++ rest) ≡ le_bytes n v
unfolding le_bytes
take-le_bytes zero v rest = refl
take-le_bytes (suc n) v rest = ap (λ l. (v % 256) ∷ l) (take-le_bytes n (v / 256) rest)

drop-le_bytes : (n v : ℕ) (rest : List ℕ) → drop n (le_bytes n v ++ rest) ≡ rest
unfolding le_bytes
drop-le_bytes zero v rest = refl
drop-le_bytes (suc n) v rest = drop-le_bytes n (v / 256) rest

-- Fields that fit into their widths are read back.
pub unpack-pack :
    (fields : List (ℕ × ℕ)) (rest : List ℕ)
    → All FitsWidth fields
    → unpack (map (λ f. f.0) fields) (pack fields ++ rest) ≡ map (λ f. f.1) fields
unfolding unpack pack
unpack-pack [] rest fits = refl
unpack-pack ((n, v) ∷ fields) rest (first, fits) =
    rw (append_assoc (le_bytes n v) (pack fields) rest) (
      ap₂ (λ x l. x ∷ l)
        (ap of_bytes (take-le_bytes n v (pack fields ++ rest)) ∙ of_bytes-le_bytes n v first)
        (ap (unpack (map (λ f. f.0) fields)) (drop-le_bytes n v (pack fields ++ rest))
          ∙ unpack-pack fields rest fits))

-- The first field, read without its widths.
pub take-pack :
    (n v : ℕ) (fields : List (ℕ × ℕ))
    → FitsWidth (n, v)
    → of_bytes (take n (pack ((n, v) ∷ fields))) ≡ v
unfolding pack
take-pack n v fields fits =
    ap of_bytes (take-le_bytes n v (pack fields)) ∙ of_bytes-le_bytes n v fits

pub pack-append : (xs ys : List (ℕ × ℕ)) → pack (xs ++ ys) ≡ pack xs ++ pack ys
unfolding pack
pack-append [] ys = refl
pack-append ((n, v) ∷ xs) ys =
    ap (◌++◌ (le_bytes n v)) (pack-append xs ys)
    ∙ sym (append_assoc (le_bytes n v) (pack xs) (pack ys))
