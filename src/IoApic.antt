-- ===== src/IoApic.antt =====
-- bootloader/kernel/src/ioapic.rs: the redirection entries of the I/O APIC, and `ioapic_handler_2` of
-- bootloader/kernel/src/interrupts.rs, which reads an entry and writes it back.
pub mod Entries
mod Tests
use Prim.Native.Nat.{bit_and}
use fomos.Common.{ℕ, ◌+◌, ◌*◌, ◌%◌, ◌^◌, ◌<◌, Bool, true, false, not, ◌==◌}
use fomos.Common.Bits.{shl, shr}

pub record RedTbl : Type 0 where
  pub vector : ℕ
  pub delivery_mode : ℕ
  pub destination_mode : Bool
  pub delivery_status : Bool
  pub pin_polarity : Bool
  pub remote_irr : Bool
  pub trigger_mode : Bool
  pub mask : Bool
  pub destination : ℕ

-- `c & 0b1 != 0`
abbrev pub flag : ℕ → Bool
flag c = not (bit_and c 1 == 0)

-- `if b { 1 } else { 0 }`
abbrev pub bit : Bool → ℕ
bit true = 1
bit false = 0

-- RedTbl::new
unfoldable pub new : ℕ → RedTbl
new n =
    let c1 = shr n 8 in
    let c2 = shr c1 2 in
    let c3 = shr c2 1 in
    let c4 = shr c3 1 in
    let c5 = shr c4 1 in
    let c6 = shr c5 1 in
    let c7 = shr c6 1 in
    record {
      vector = bit_and n 0xff;
      delivery_mode = bit_and c1 3;
      destination_mode = flag c2;
      delivery_status = flag c3;
      pin_polarity = flag c4;
      remote_irr = flag c5;
      trigger_mode = flag c6;
      mask = flag c7;
      destination = shr n 56 % 2 ^ 8;
    }

-- RedTbl::store
unfoldable pub store : RedTbl → ℕ
store t =
    (shl t.destination 56
      + t.vector
      + shl t.delivery_mode 8
      + shl (bit t.destination_mode) 10
      + shl (bit t.delivery_status) 11
      + shl (bit t.pin_polarity) 12
      + shl (bit t.remote_irr) 13
      + shl (bit t.trigger_mode) 14
      + shl (bit t.mask) 15)
    % 2 ^ 64

-- The volatile accesses of the crate core to the registers at `virt_address`.
pub record Mmio : Type 1 where
  pub State : Type 0
  pub volatile_load : State → ℕ → ℕ × State
  pub volatile_store : State → ℕ → ℕ → State
  pub load_word : (s : State) (a : ℕ) → (volatile_load s a).0 < 0x100000000

module _ (mmio : Mmio) (virt_address : ℕ) where
  open mmio use {State, volatile_load, volatile_store}

  unfoldable pub set_sel : State → ℕ → State
  set_sel s reg = volatile_store s virt_address reg

  unfoldable pub read : State → ℕ → ℕ × State
  unfolding set_sel
  read s reg = volatile_load (set_sel s reg) (virt_address + 0x10)

  unfoldable pub write : State → ℕ → ℕ → State
  unfolding set_sel
  write s reg value = volatile_store (set_sel s reg) (virt_address + 0x10) value

  unfoldable pub read_redtlb : State → ℕ → ℕ × State
  unfolding read
  read_redtlb s index =
      let (low, s1) = read s (0x10 + 2 * index) in
      let (high, s2) = read s1 (0x10 + 2 * index + 1) in ((shl high 32 + low) % 2 ^ 64, s2)

  unfoldable pub write_redtlb : State → ℕ → ℕ → State
  unfolding write
  write_redtlb s index redtlb =
      let s1 = write s (0x10 + 2 * index) (bit_and redtlb 0xffff % 2 ^ 32) in
      write s1 (0x10 + 2 * index + 1) (shr redtlb 32 % 2 ^ 32)

  -- `ioapic_handler_2`, without the end of the interrupt that it signals to the local APIC.
  unfoldable pub ioapic_handler_2 : State → State
  unfolding read_redtlb write_redtlb new store
  ioapic_handler_2 s = let (n, s') = read_redtlb s 2 in write_redtlb s' 2 (store (new n))
