-- ===== src/Pci.antt =====
-- bootloader/kernel/src/pci.rs: the configuration space of the PCI bus behind the ports 0xCF8 and
-- 0xCFC. A function takes the state of the machine behind the ports and returns the one after it.
pub mod Ports
pub mod Registers
pub mod Parts
pub mod Words
pub mod Bars
pub mod Scan
mod Tests
use Prim.Native.Nat.{bit_and, bit_or}
use fomos.Common.{
  ℕ, zero, suc, ◌+◌, ◌-◌, ◌*◌, ◌%◌, ◌^◌, Bool, not, ◌&&◌, Option, none, some, List, [], ◌∷◌, ◌++◌,
  ltb, ◌==◌, if◌then◌else◌, ◌>>=◌,
}
use fomos.Common.Bits.{shl, shr}
use Ports.{ConfigPorts}

-- The address that `config_address` writes.
unfoldable pub address_of : ℕ → ℕ → ℕ → ℕ → ℕ
address_of bus slot func off =
    bit_or (bit_or (bit_or (bit_or (shl bus 16) (shl slot 11)) (shl func 8)) (bit_and off 0xfc))
      0x80000000

-- struct Pci
pub record Pci : Type 0 where
  pub bus : ℕ
  pub slot : ℕ
  pub func : ℕ

pub data Bar : Type 0 where
  no_bar : Bar
  io mm : ℕ → Bar

-- The registers that are read by name.
abbrev pub pci_vendor_id : ℕ
pci_vendor_id = 0x0

abbrev pub pci_device_id : ℕ
pci_device_id = 0x2

abbrev pub pci_header_type : ℕ
pci_header_type = 0xE

abbrev pub pci_bar0 : ℕ
pci_bar0 = 0x10

-- `get_bar`: idx_to_enum
unfoldable pub bar_register : ℕ → ℕ
bar_register zero = 0x10
bar_register (suc zero) = 0x14
bar_register (suc (suc zero)) = 0x18
bar_register (suc (suc (suc zero))) = 0x1C
bar_register (suc (suc (suc (suc zero)))) = 0x20
bar_register _ = 0x24

-- `!x` and `x << k` on a `u32`.
abbrev pub not_u32 : ℕ → ℕ
not_u32 x = 2 ^ 32 - 1 - x

abbrev pub shl_u32 : ℕ → ℕ → ℕ
shl_u32 x k = shl x k % 2 ^ 32

module _ (ports : ConfigPorts) where
  open ports use {State, write, read, phys_addr}

  unfoldable pub config_address : State → ℕ → ℕ → ℕ → ℕ → State
  unfolding address_of
  config_address s bus slot func off = write s 0xCF8 (address_of bus slot func off)

  unfoldable pub config_read_u32 : State → Pci → ℕ → ℕ × State
  config_read_u32 s pci off = read (config_address s pci.bus pci.slot pci.func off) 0xCFC

  unfoldable pub config_read_u16 : State → Pci → ℕ → ℕ × State
  unfolding config_read_u32
  config_read_u16 s pci off =
      let (word, s') = config_read_u32 s pci off in
      (bit_and (shr word (bit_and off 2 * 8)) 0xffff % 2 ^ 16, s')

  unfoldable pub config_read_u8 : State → Pci → ℕ → ℕ × State
  unfolding config_read_u32
  config_read_u8 s pci off =
      let (word, s') = config_read_u32 s pci off in
      (bit_and (shr word (bit_and off 3 * 8)) 0xff % 2 ^ 8, s')

  unfoldable pub config_write_u32 : State → Pci → ℕ → ℕ → State
  config_write_u32 s pci off value =
      write (config_address s pci.bus pci.slot pci.func off) 0xCFC value

  unfoldable pub config_write_u16 : State → Pci → ℕ → ℕ → State
  unfolding config_read_u32
  config_write_u16 s pci off value =
      let (word, s') = config_read_u32 s pci off in
      let sh = bit_and off 2 * 8 in
      write s' 0xCFC (bit_or (bit_and word (not_u32 (shl_u32 0xFFFF sh))) (shl_u32 value sh))

  unfoldable pub config_write_u8 : State → Pci → ℕ → ℕ → State
  unfolding config_read_u32
  config_write_u8 s pci off value =
      let (word, s') = config_read_u32 s pci off in
      let sh = bit_and off 3 * 8 in
      write s' 0xCFC (bit_or (bit_and word (not_u32 (shl_u32 0xFF sh))) (shl_u32 value sh))

  -- `bar |= … << 32` and what follows it; `none` is the panic of `PhysAddr::new`.
  unfoldable pub memory_bar : ℕ → Option Bar
  memory_bar bar =
      let masked = bit_and bar 0xFFFFFFFFFFFFFFF0 in
      if masked == 0 then some no_bar else (phys_addr masked >>= (λ a. some (mm a)))

  unfoldable pub get_bar : State → Pci → ℕ → Option (Bar × State)
  unfolding config_read_u32 memory_bar bar_register
  get_bar s pci idx =
      let (bar, s1) = config_read_u32 s pci (bar_register idx) in
      let (high, s2) = config_read_u32 s1 pci (pci_bar0 + (idx + 1) * 4) in
      if bar == 0
      then some (no_bar, s1)
      else if not (bit_and bar 1 == 0)
      then some (io (bit_and bar 0xFFFFFFFFFFFFFFFC % 2 ^ 32), s1)
      else if not (bit_and bar 4 == 0) && ltb idx 5
      then (memory_bar (bit_or bar (shl high 32)) >>= (λ b. some (b, s2)))
      else (memory_bar bar >>= (λ b. some (b, s1)))

  -- `Pcis::new`: the functions of a slot from `func` on, `rounds` of them.
  unfoldable pub scan_funcs : State → ℕ → ℕ → ℕ → ℕ → List Pci × State
  unfolding config_read_u16 config_read_u8
  scan_funcs s bus slot zero func = ([], s)
  scan_funcs s bus slot (suc rounds) func =
      let pci : Pci = record { bus = bus; slot = slot; func = func } in
      let (vendor, s1) = config_read_u16 s pci pci_vendor_id in
      let (device_id, s1') = config_read_u16 s1 pci pci_device_id in
      let (header_type, s2) = config_read_u8 s1' pci pci_header_type in
      let absent = scan_funcs s1 bus slot rounds (func + 1) in
      let more = scan_funcs s2 bus slot rounds (func + 1) in
      if vendor == 0xFFFF
      then absent
      else if func == 0 && (bit_and header_type 0x80 == 0)
      then (pci ∷ [], s2)
      else (pci ∷ more.0, more.1)

  unfoldable pub scan_slots : State → ℕ → ℕ → ℕ → List Pci × State
  scan_slots s bus zero slot = ([], s)
  scan_slots s bus (suc rounds) slot =
      let (found, s') = scan_funcs s bus slot 8 0 in
      let (rest, s'') = scan_slots s' bus rounds (slot + 1) in (found ++ rest, s'')

  unfoldable pub scan_buses : State → ℕ → ℕ → List Pci × State
  unfolding scan_slots
  scan_buses s zero bus = ([], s)
  scan_buses s (suc rounds) bus =
      let (found, s') = scan_slots s bus 32 0 in
      let (rest, s'') = scan_buses s' rounds (bus + 1) in (found ++ rest, s'')

  -- Pcis::new
  unfoldable pub scan : State → List Pci × State
  unfolding scan_buses
  scan s = scan_buses s 256 0
