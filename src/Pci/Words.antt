-- ===== src/Pci/Words.antt =====
-- `config_write_u16` and `config_write_u8` read a register, change a part of it and write it back.
use Prim.Native.Nat.{bit_and}
use fomos.Common.{
  ℕ, ◌*◌, ◌/◌, ◌%◌, ◌<◌, ◌≡◌, refl, sym, ap, ◌∙◌, Bool, true, false, ◌&&◌, ◌==◌, if◌then◌else◌,
  ==_iff, arith,
}
use fomos.Pci.Ports.{ConfigPorts, KeepsWrites}
use fomos.Pci.{
  Pci, config_address, config_read_u32, config_read_u16, config_read_u8, config_write_u16,
  config_write_u8,
}
use fomos.Pci.Registers.{address}
use fomos.Pci.Parts.{
  half, byte, merged, read_half, read_byte, half-merged, byte-merged, merged_half_word,
  merged_byte_word,
}

module _ (ports : ConfigPorts) where
  open ports use {State, register}

  -- The machine after the address of a register is written and the register is read.
  abbrev after_read : State → Pci → ℕ → State
  after_read s pci off = (config_read_u32 ports s pci off).1

  pub config_read_u32_lem :
      (s : State) (pci : Pci) (off : ℕ)
      → (config_read_u32 ports s pci off).0 ≡ register s (address pci off)
  unfolding config_read_u32 config_address
  config_read_u32_lem s pci off =
      let t = ports.write s 0xCF8 (address pci off) in
      ports.read_data t
      ∙ ap (register t) (ports.address-write s (address pci off))
      ∙ ports.register-write_address s (address pci off) (address pci off)

  pub register-config_read_u32 :
      (s : State) (pci : Pci) (off r : ℕ)
      → register (config_read_u32 ports s pci off).1 r ≡ register s r
  unfolding config_read_u32 config_address
  register-config_read_u32 s pci off r =
      let t = ports.write s 0xCF8 (address pci off) in
      ports.register-read t r ∙ ports.register-write_address s (address pci off) r

  address-after_read :
      (s : State) (pci : Pci) (off : ℕ) → ports.address (after_read s pci off) ≡ address pci off
  unfolding config_read_u32 config_address
  address-after_read s pci off =
      let t = ports.write s 0xCF8 (address pci off) in
      ports.address-read t ∙ ports.address-write s (address pci off)

  pub config_read_u16_lem :
      (s : State) (pci : Pci) (off : ℕ)
      → (config_read_u16 ports s pci off).0 ≡ half (off / 2 % 2) (register s (address pci off))
  unfolding config_read_u16
  config_read_u16_lem s pci off =
      read_half (config_read_u32 ports s pci off).0 off
      ∙ ap (half (off / 2 % 2)) (config_read_u32_lem s pci off)

  pub config_read_u8_lem :
      (s : State) (pci : Pci) (off : ℕ)
      → (config_read_u8 ports s pci off).0 ≡ byte (off % 4) (register s (address pci off))
  unfolding config_read_u8
  config_read_u8_lem s pci off =
      read_byte (config_read_u32 ports s pci off).0 off
      ∙ ap (byte (off % 4)) (config_read_u32_lem s pci off)

  -- What the registers hold when a word is written after a read.
  register-written :
      (s : State) (pci : Pci) (off v k : ℕ)
      → KeepsWrites ports (address pci off)
      → v < 0x100000000
      → register (ports.write (after_read s pci off) 0xCFC v) k
        ≡ (if address pci off == k then v else register s k)
  register-written s pci off v k keeps small =
      keeps.register-write (after_read s pci off) v k (address-after_read s pci off) small
      ∙ ap (λ w. if address pci off == k then v else w) (register-config_read_u32 s pci off k)

  select {ℓ κ} :
      {A : Type ℓ} {B : Type κ} (same part : Bool) (f : A → B) (w old : A) (v : B)
      → (same ≡ true → f w ≡ (if part then v else f old))
      → f (if same then w else old) ≡ (if same && part then v else f old)
  select true part f w old v h = h refl
  select false part f w old v h = refl

  -- On registers that keep what is written to them, `config_write_u16` puts a half word where
  -- `config_read_u16` finds it, and every other half word reads as it did before.
  pub read-write_u16 :
      (s : State) (pci pci' : Pci) (off off' v : ℕ)
      → KeepsWrites ports (address pci off)
      → v < 0x10000
      → (config_read_u16 ports (config_write_u16 ports s pci off v) pci' off').0 ≡ (
          if address pci off == address pci' off' && (off / 2 % 2 == off' / 2 % 2)
          then v
          else (config_read_u16 ports s pci' off').0)
  unfolding config_write_u16
  read-write_u16 s pci pci' off off' v keeps fits =
      let word = (config_read_u32 ports s pci off).0 in
      let old = register s (address pci' off') in
      let small : word < 0x100000000 =
        omega (arith, config_read_u32_lem s pci off, ports.register_word s (address pci off)) in
      let back = merged 0xFFFF word v (bit_and off 2 * 8) in
      let same = address pci off == address pci' off' in
      config_read_u16_lem (config_write_u16 ports s pci off v) pci' off'
      ∙ ap (half (off' / 2 % 2)) (
          register-written s pci off back (address pci' off') keeps
            (merged_half_word off word v small fits))
      ∙ select same (off / 2 % 2 == off' / 2 % 2) (half (off' / 2 % 2)) back old v (λ e.
        half-merged off off' word v small fits
        ∙ ap (λ w. if (off / 2 % 2 == off' / 2 % 2) then v else half (off' / 2 % 2) w)
            (config_read_u32_lem s pci off
              ∙ ap (register s) ((==_iff (address pci off) (address pci' off')).0 e)))
      ∙ ap (λ n. if same && (off / 2 % 2 == off' / 2 % 2) then v else n)
          (sym (config_read_u16_lem s pci' off'))

  -- On registers that keep what is written to them, `config_write_u8` puts a byte where
  -- `config_read_u8` finds it, and every other byte reads as it did before.
  pub read-write_u8 :
      (s : State) (pci pci' : Pci) (off off' v : ℕ)
      → KeepsWrites ports (address pci off)
      → v < 0x100
      → (config_read_u8 ports (config_write_u8 ports s pci off v) pci' off').0 ≡ (
          if address pci off == address pci' off' && (off % 4 == off' % 4)
          then v
          else (config_read_u8 ports s pci' off').0)
  unfolding config_write_u8
  read-write_u8 s pci pci' off off' v keeps fits =
      let word = (config_read_u32 ports s pci off).0 in
      let old = register s (address pci' off') in
      let small : word < 0x100000000 =
        omega (arith, config_read_u32_lem s pci off, ports.register_word s (address pci off)) in
      let back = merged 0xFF word v (bit_and off 3 * 8) in
      let same = address pci off == address pci' off' in
      config_read_u8_lem (config_write_u8 ports s pci off v) pci' off'
      ∙ ap (byte (off' % 4)) (
          register-written s pci off back (address pci' off') keeps
            (merged_byte_word off word v small fits))
      ∙ select same (off % 4 == off' % 4) (byte (off' % 4)) back old v (λ e.
        byte-merged off off' word v small fits
        ∙ ap (λ w. if (off % 4 == off' % 4) then v else byte (off' % 4) w)
            (config_read_u32_lem s pci off
              ∙ ap (register s) ((==_iff (address pci off) (address pci' off')).0 e)))
      ∙ ap (λ n. if same && (off % 4 == off' % 4) then v else n)
          (sym (config_read_u8_lem s pci' off'))
