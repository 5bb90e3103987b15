-- ===== src/Pci/Parts.antt =====
-- The half words and the bytes of a register: what a write of a part makes of the word.
use Prim.Native.Nat.{bit_and, bit_or}
use fomos.Common.{ℕ, zero, suc, ◌*◌, ◌/◌, ◌%◌, ◌^◌, ◌<◌, ◌≡◌, ap, ◌∙◌, ◌==◌, if◌then◌else◌, arith}
use fomos.Common.Bits.{shr, bit_and_mask}
use fomos.Common.Fields.{hole, replaced, replace_field}
use fomos.Pci.{not_u32, shl_u32}
use fomos.Pci.Registers.{half_offset, byte_offset}

-- Half word `c` and byte `c` of a double word.
abbrev pub half : ℕ → ℕ → ℕ
half c w = w / 2 ^ (c * 16) % 0x10000

abbrev pub byte : ℕ → ℕ → ℕ
byte c w = w / 2 ^ (c * 8) % 0x100

pub read_half :
    (w off : ℕ) → bit_and (shr w (bit_and off 2 * 8)) 0xffff % 2 ^ 16 ≡ half (off / 2 % 2) w
read_half w off =
    ap (λ n. bit_and (shr w n) 0xffff % 2 ^ 16) (half_offset off)
    ∙ ap (λ n. n % 2 ^ 16) (bit_and_mask 16 (shr w (off / 2 % 2 * 16)))
    ∙ omega arith

pub read_byte : (w off : ℕ) → bit_and (shr w (bit_and off 3 * 8)) 0xff % 2 ^ 8 ≡ byte (off % 4) w
read_byte w off =
    ap (λ n. bit_and (shr w n) 0xff % 2 ^ 8) (byte_offset off)
    ∙ ap (λ n. n % 2 ^ 8) (bit_and_mask 8 (shr w (off % 4 * 8)))
    ∙ omega arith

-- The word that a write of `v` at bit `sh` under the mask `ones` puts back.
abbrev pub merged : ℕ → ℕ → ℕ → ℕ → ℕ
merged ones w v sh = bit_or (bit_and w (not_u32 (shl_u32 ones sh))) (shl_u32 v sh)

merge_half :
    (c w v : ℕ)
    → c < 2
    → w < 0x100000000
    → v < 0x10000
    → merged 0xFFFF w v (c * 16) ≡ replaced w 16 (c * 16) v
unfolding hole
merge_half zero w v h small fits =
    ap (bit_or (bit_and w 0xFFFF0000)) (omega arith) ∙ replace_field 0 16 16 w v small fits
merge_half (suc zero) w v h small fits =
    ap (bit_or (bit_and w 0xFFFF)) (omega arith) ∙ replace_field 16 0 16 w v small fits
merge_half (suc (suc c)) w v h small fits = absurd (omega arith)

merge_byte :
    (c w v : ℕ)
    → c < 4
    → w < 0x100000000
    → v < 0x100
    → merged 0xFF w v (c * 8) ≡ replaced w 8 (c * 8) v
unfolding hole
merge_byte zero w v h small fits =
    ap (bit_or (bit_and w 0xFFFFFF00)) (omega arith) ∙ replace_field 0 24 8 w v small fits
merge_byte (suc zero) w v h small fits =
    ap (bit_or (bit_and w 0xFFFF00FF)) (omega arith) ∙ replace_field 8 16 8 w v small fits
merge_byte (suc (suc zero)) w v h small fits =
    ap (bit_or (bit_and w 0xFF00FFFF)) (omega arith) ∙ replace_field 16 8 8 w v small fits
merge_byte (suc (suc (suc zero))) w v h small fits =
    ap (bit_or (bit_and w 0xFFFFFF)) (omega arith) ∙ replace_field 24 0 8 w v small fits
merge_byte (suc (suc (suc (suc c)))) w v h small fits = absurd (omega arith)

pub merged_half_word :
    (off w v : ℕ)
    → w < 0x100000000
    → v < 0x10000
    → merged 0xFFFF w v (bit_and off 2 * 8) < 0x100000000
merged_half_word off w v small fits =
    let word =
      ap (merged 0xFFFF w v) (half_offset off)
      ∙ merge_half (off / 2 % 2) w v (omega arith) small fits in
    omega (arith, word, bound (off / 2 % 2) (omega arith))
  where
    bound : (c : ℕ) → c < 2 → replaced w 16 (c * 16) v < 0x100000000
    bound zero h = omega arith
    bound (suc zero) h = omega arith
    bound (suc (suc c)) h = absurd (omega arith)

pub merged_byte_word :
    (off w v : ℕ) → w < 0x100000000 → v < 0x100 → merged 0xFF w v (bit_and off 3 * 8) < 0x100000000
merged_byte_word off w v small fits =
    let word =
      ap (merged 0xFF w v) (byte_offset off) ∙ merge_byte (off % 4) w v (omega arith) small fits in
    omega (arith, word, bound (off % 4) (omega arith))
  where
    bound : (c : ℕ) → c < 4 → replaced w 8 (c * 8) v < 0x100000000
    bound zero h = omega arith
    bound (suc zero) h = omega arith
    bound (suc (suc zero)) h = omega arith
    bound (suc (suc (suc zero))) h = omega arith
    bound (suc (suc (suc (suc c)))) h = absurd (omega arith)

pub half-merged :
    (off off' w v : ℕ)
    → w < 0x100000000
    → v < 0x10000
    → half (off' / 2 % 2) (merged 0xFFFF w v (bit_and off 2 * 8))
      ≡ (if off / 2 % 2 == off' / 2 % 2 then v else half (off' / 2 % 2) w)
half-merged off off' w v small fits =
    ap (λ n. half (off' / 2 % 2) (merged 0xFFFF w v n)) (half_offset off)
    ∙ ap (half (off' / 2 % 2)) (merge_half (off / 2 % 2) w v (omega arith) small fits)
    ∙ parts (off / 2 % 2) (off' / 2 % 2) (omega arith) (omega arith)
  where
    parts :
        (c c' : ℕ)
        → c < 2
        → c' < 2
        → half c' (replaced w 16 (c * 16) v) ≡ (if c == c' then v else half c' w)
    parts zero zero h h' = omega arith
    parts zero (suc zero) h h' = omega arith
    parts (suc zero) zero h h' = omega arith
    parts (suc zero) (suc zero) h h' = omega arith
    parts (suc (suc c)) c' h h' = absurd (omega arith)
    parts c (suc (suc c')) h h' = absurd (omega arith)

pub byte-merged :
    (off off' w v : ℕ)
    → w < 0x100000000
    → v < 0x100
    → byte (off' % 4) (merged 0xFF w v (bit_and off 3 * 8))
      ≡ (if off % 4 == off' % 4 then v else byte (off' % 4) w)
byte-merged off off' w v small fits =
    ap (λ n. byte (off' % 4) (merged 0xFF w v n)) (byte_offset off)
    ∙ ap (byte (off' % 4)) (merge_byte (off % 4) w v (omega arith) small fits)
    ∙ parts (off % 4) (off' % 4) (omega arith) (omega arith)
  where
    parts :
        (c c' : ℕ)
        → c < 4
        → c' < 4
        → byte c' (replaced w 8 (c * 8) v) ≡ (if c == c' then v else byte c' w)
    parts zero zero h h' = omega arith
    parts zero (suc zero) h h' = omega arith
    parts zero (suc (suc zero)) h h' = omega arith
    parts zero (suc (suc (suc zero))) h h' = omega arith
    parts (suc zero) zero h h' = omega arith
    parts (suc zero) (suc zero) h h' = omega arith
    parts (suc zero) (suc (suc zero)) h h' = omega arith
    parts (suc zero) (suc (suc (suc zero))) h h' = omega arith
    parts (suc (suc zero)) zero h h' = omega arith
    parts (suc (suc zero)) (suc zero) h h' = omega arith
    parts (suc (suc zero)) (suc (suc zero)) h h' = omega arith
    parts (suc (suc zero)) (suc (suc (suc zero))) h h' = omega arith
    parts (suc (suc (suc zero))) zero h h' = omega arith
    parts (suc (suc (suc zero))) (suc zero) h h' = omega arith
    parts (suc (suc (suc zero))) (suc (suc zero)) h h' = omega arith
    parts (suc (suc (suc zero))) (suc (suc (suc zero))) h h' = omega arith
    parts (suc (suc (suc (suc c)))) c' h h' = absurd (omega arith)
    parts c (suc (suc (suc (suc c')))) h h' = absurd (omega arith)
