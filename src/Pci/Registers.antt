-- ===== src/Pci/Registers.antt =====
-- Reading and writing the configuration space: addresses, and the parts of a register.
use Prim.Native.Nat.{bit_and, bit_or}
use fomos.Common.{ℕ, ◌+◌, ◌*◌, ◌/◌, ◌%◌, ◌^◌, ◌<◌, ◌≡◌, ap, ap₂, ◌∙◌, arith}
use fomos.Common.Bits.{bit_and_mask, bit_and-shl, bit_or_disjoint, bit_or_disjoint'}
use fomos.Pci.{Pci, address_of}

-- The fields of an address, as `u8` and within the limits of the bus.
pub record IsPci (pci : Pci) : Type 0 where
  pub bus_fits : pci.bus < 256
  pub slot_fits : pci.slot < 32
  pub func_fits : pci.func < 8

abbrev pub address : Pci → ℕ → ℕ
address pci off = address_of pci.bus pci.slot pci.func off

word_part : (off : ℕ) → off < 256 → bit_and off 0xfc ≡ off / 4 * 4
word_part off h = bit_and-shl 2 off 63 ∙ ap (λ n. n * 4) (bit_and_mask 6 (off / 4)) ∙ omega arith

pub address_lem :
    (pci : Pci) (off : ℕ)
    → IsPci pci
    → off < 256
    → address pci off
      ≡ 0x80000000 + pci.bus * 65536 + pci.slot * 2048 + pci.func * 256 + off / 4 * 4
unfolding address_of
address_lem pci off v h =
    ap (λ n. joined (bit_or (bit_or n (func * 256)) (bit_and off 0xfc)))
      (bit_or_disjoint 16 bus (slot * 2 ^ 11) (omega (arith, v)))
    ∙ ap (λ n. joined (bit_or n (bit_and off 0xfc))) funcs
    ∙ ap₂ (λ n d. joined (bit_or n d)) (omega arith) (word_part off h)
    ∙ ap joined (bit_or_disjoint 8 ((bus * 32 + slot) * 8 + func) (off / 4 * 4) (omega arith))
    ∙ bit_or_disjoint' 31 1 (((bus * 32 + slot) * 8 + func) * 256 + off / 4 * 4) (omega arith)
    ∙ omega arith
  where
    bus : ℕ
    bus = pci.bus

    slot : ℕ
    slot = pci.slot

    func : ℕ
    func = pci.func

    joined : ℕ → ℕ
    joined n = bit_or n 0x80000000

    funcs : bit_or (bus * 65536 + slot * 2048) (func * 256) ≡ (bus * 32 + slot) * 2048 + func * 256
    funcs =
        ap (λ n. bit_or n (func * 256)) (omega arith)
        ∙ bit_or_disjoint 11 (bus * 32 + slot) (func * 256) (omega arith)

-- For functions within the limits of the bus and offsets below 256, equal addresses are of one
-- function and of one double word.
pub address_injective :
    (pci pci' : Pci) (off off' : ℕ)
    → IsPci pci
    → IsPci pci'
    → off < 256
    → off' < 256
    → address pci off ≡ address pci' off'
    → (pci ≡ pci') × (off / 4 ≡ off' / 4)
address_injective pci pci' off off' v v' h h' e =
    ground (arith, address_lem pci off v h, address_lem pci' off' v' h')

pub half_offset : (off : ℕ) → bit_and off 2 * 8 ≡ off / 2 % 2 * 16
half_offset off = omega (arith, bit_and-shl 1 off 1, bit_and_mask 1 (off / 2))

pub byte_offset : (off : ℕ) → bit_and off 3 * 8 ≡ off % 4 * 8
byte_offset off = omega (arith, bit_and_mask 2 off)
