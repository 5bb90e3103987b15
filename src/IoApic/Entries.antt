-- ===== src/IoApic/Entries.antt =====
-- What an entry is after it was read, taken apart, put together and written back.
use Prim.Native.Nat.{bit_and}
use fomos.Common.{
  ℕ, zero, suc, ◌+◌, ◌*◌, ◌/◌, ◌%◌, ◌^◌, ◌<◌, ◌≡◌, refl, ap, ap₂, ◌∙◌, Bool, true, false, not, ◌==◌,
  arith,
}
use fomos.Common.Bits.{bit_and_mask}
use fomos.IoApic.{
  RedTbl, flag, bit, new, store, Mmio, read, write, read_redtlb, write_redtlb, ioapic_handler_2,
}

bit-flag : (c : ℕ) → bit (flag c) ≡ c % 2
bit-flag c = ap (λ n. bit (not (n == 0))) (bit_and_mask 1 c) ∙ digit (c % 2) (omega arith)
  where
    digit : (d : ℕ) → d < 2 → bit (not (d == 0)) ≡ d
    digit zero h = refl
    digit (suc zero) h = refl
    digit (suc (suc d)) h = absurd (omega arith)

-- An entry that is taken apart and put together again keeps its 16 low bits and its 8 high bits,
-- and loses all others, bit 16 among them.
pub store-new : (n : ℕ) → n < 2 ^ 64 → store (new n) ≡ n / 2 ^ 56 * 2 ^ 56 + n % 2 ^ 16
unfolding store new
store-new n small =
    rw
      (
        bit-flag (n / 2 ^ 8 / 2 ^ 2),
        bit-flag (n / 2 ^ 8 / 2 ^ 2 / 2 ^ 1),
        bit-flag (n / 2 ^ 8 / 2 ^ 2 / 2 ^ 1 / 2 ^ 1),
        bit-flag (n / 2 ^ 8 / 2 ^ 2 / 2 ^ 1 / 2 ^ 1 / 2 ^ 1),
        bit-flag (n / 2 ^ 8 / 2 ^ 2 / 2 ^ 1 / 2 ^ 1 / 2 ^ 1 / 2 ^ 1),
        bit-flag (n / 2 ^ 8 / 2 ^ 2 / 2 ^ 1 / 2 ^ 1 / 2 ^ 1 / 2 ^ 1 / 2 ^ 1),
        bit_and_mask 8 n,
        bit_and_mask 2 (n / 2 ^ 8),
      )
      (omega arith)

-- The fields fit into their places.
pub record Fits (t : RedTbl) : Type 0 where
  pub vector_fits : t.vector < 256
  pub mode_fits : t.delivery_mode < 4
  pub destination_fits : t.destination < 256

bit-lt : (b : Bool) → bit b < 2
bit-lt true = omega arith
bit-lt false = omega arith

flag-bit : (c : ℕ) (b : Bool) → c % 2 ≡ bit b → flag c ≡ b
flag-bit c b e = ap (λ n. not (n == 0)) (bit_and_mask 1 c ∙ e) ∙ back b
  where
    back : (b : Bool) → not (bit b == 0) ≡ b
    back true = refl
    back false = refl

-- Fields that fit into their places are read back as they were stored.
pub new-store : (t : RedTbl) → Fits t → new (store t) ≡ t
unfolding store new
new-store t fits =
    let b10 = bit-lt t.destination_mode in
    let b11 = bit-lt t.delivery_status in
    let b12 = bit-lt t.pin_polarity in
    let b13 = bit-lt t.remote_irr in
    let b14 = bit-lt t.trigger_mode in
    let b15 = bit-lt t.mask in
    let n = store t in
    let v : bit_and n 0xff ≡ t.vector = bit_and_mask 8 n ∙ omega arith in
    let m : bit_and (n / 2 ^ 8) 3 ≡ t.delivery_mode = bit_and_mask 2 (n / 2 ^ 8) ∙ omega arith in
    let f10 = flag-bit (n / 2 ^ 8 / 2 ^ 2) t.destination_mode (omega arith) in
    let f11 = flag-bit (n / 2 ^ 8 / 2 ^ 2 / 2 ^ 1) t.delivery_status (omega arith) in
    let f12 = flag-bit (n / 2 ^ 8 / 2 ^ 2 / 2 ^ 1 / 2 ^ 1) t.pin_polarity (omega arith) in
    let f13 = flag-bit (n / 2 ^ 8 / 2 ^ 2 / 2 ^ 1 / 2 ^ 1 / 2 ^ 1) t.remote_irr (omega arith) in
    let f14 =
      flag-bit (n / 2 ^ 8 / 2 ^ 2 / 2 ^ 1 / 2 ^ 1 / 2 ^ 1 / 2 ^ 1) t.trigger_mode (omega arith) in
    let f15 =
      flag-bit (n / 2 ^ 8 / 2 ^ 2 / 2 ^ 1 / 2 ^ 1 / 2 ^ 1 / 2 ^ 1 / 2 ^ 1) t.mask (omega arith) in
    let d : n / 2 ^ 56 % 2 ^ 8 ≡ t.destination = omega arith in
    λ i. record {
      vector = v i;
      delivery_mode = m i;
      destination_mode = f10 i;
      delivery_status = f11 i;
      pin_polarity = f12 i;
      remote_irr = f13 i;
      trigger_mode = f14 i;
      mask = f15 i;
      destination = d i;
    }

module _ (mmio : Mmio) (virt_address : ℕ) where
  open mmio use {State}

  -- The lower and the upper word of entry 2.
  abbrev pub low : State → ℕ × State
  low s = read mmio virt_address s 0x14

  abbrev pub high : State → ℕ × State
  high s = read mmio virt_address (low s).1 0x15

  low_word : (s : State) → (low s).0 < 0x100000000
  unfolding read
  low_word s = mmio.load_word _ _

  high_word : (s : State) → (high s).0 < 0x100000000
  unfolding read
  high_word s = mmio.load_word _ _

  -- `ioapic_handler_2` reads both words of entry 2, and writes back the 16 low bits of the lower and
  -- the 8 high bits of the upper one, with zeros for all others.
  pub ioapic_handler_2_lem :
      (s : State)
      → ioapic_handler_2 mmio virt_address s
        ≡ write mmio virt_address
            (write mmio virt_address (high s).1 0x14 ((low s).0 % 2 ^ 16))
            0x15
            ((high s).0 / 2 ^ 24 * 2 ^ 24)
  unfolding ioapic_handler_2 read_redtlb write_redtlb
  ioapic_handler_2_lem s =
      let n = ((high s).0 * 2 ^ 32 + (low s).0) % 2 ^ 64 in
      let entry = store-new n (omega arith) in
      let lower : bit_and (store (new n)) 0xffff % 2 ^ 32 ≡ (low s).0 % 2 ^ 16 =
        ap (λ w. w % 2 ^ 32) (bit_and_mask 16 (store (new n)))
        ∙ omega (arith, entry, low_word s, high_word s) in
      let upper : store (new n) / 2 ^ 32 % 2 ^ 32 ≡ (high s).0 / 2 ^ 24 * 2 ^ 24 =
        omega (arith, entry, low_word s, high_word s) in
      ap₂ (λ lo hi. write mmio virt_address (write mmio virt_address (high s).1 0x14 lo) 0x15 hi)
        lower upper
