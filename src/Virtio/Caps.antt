-- ===== src/Virtio/Caps.antt =====
-- bootloader/kernel/src/virtio.rs, `Virtio::init`: the list of capabilities in the configuration space
-- of a device, in which it says where its structures are.
pub mod Last
mod Tests
use fomos.Common.{
  ℕ, zero, suc, ◌+◌, ◌%◌, ◌^◌, Option, none, some, List, [], ◌∷◌, get_elem?, ◌==◌, if◌then◌else◌,
  ◌>>=◌,
}
use fomos.Common.Int.{ℤ, pos, negsuc, ◌-ℤ◌}
use fomos.Pci.{Bar, no_bar, io, mm}

pub data DeviceType : Type 0 where
  input gpu : DeviceType

unfoldable pub device_id_to_type : ℤ → Option DeviceType
device_id_to_type (pos id) = if id == 18 then some input else if id == 16 then some gpu else none
device_id_to_type (negsuc id) = none

-- The type of a device by its id register.
unfoldable pub device_type : ℕ → Option DeviceType
unfolding device_id_to_type
device_type word = device_id_to_type (pos word -ℤ pos 0x1040)

pub record VirtioCap (T : Type 0) : Type 0 where
  pub cap : T
  pub bar : Bar
  pub offset : ℕ
  pub length : ℕ

-- The four variables that the loop sets. A structure is its virtual address; of the bytes of the
-- window to the configuration space there are four.
pub record Caps : Type 0 where
  pub common : Option (VirtioCap ℕ)
  pub device : Option (VirtioCap ℕ)
  pub notify : Option (VirtioCap ℕ)
  pub pci_conf : Option (VirtioCap (List ℕ))

abbrev pub no_caps : Caps
no_caps = record { common = none; device = none; notify = none; pci_conf = none }

-- The types that the loop matches on.
pub data CfgType : Type 0 where
  common_cfg notify_cfg isr_cfg device_cfg pci_cfg other_cfg : CfgType

unfoldable pub cfg_type_of : ℕ → CfgType
cfg_type_of n =
    if n == 1
    then common_cfg
    else if n == 2
    then notify_cfg
    else if n == 3
    then isr_cfg
    else if n == 4
    then device_cfg
    else if n == 5
    then pci_cfg
    else other_cfg

-- An assignment under `if let`.
abbrev pub or_else : {T : Type 0} → Option T → Option T → Option T
or_else none old = old
or_else (some new) old = some new

-- How the loop ends: with a panic, or when the fuel runs out that stands for the time it may take.
pub data Scanned : Type 0 where
  found : Caps → Scanned
  panic out_of_fuel : Scanned

-- An offset is a `u8` that wraps.
abbrev pub at : ℕ → ℕ → ℕ
at off i = (off + i) % 2 ^ 8

-- `read_u8` and `read_u32` read the configuration space of the device, which the reads leave as it is
-- (Pci/Words). `phys_to_virt` is the mapping of the physical memory, and a panic where the sum is
-- no physical address.
module _ (read_u8 read_u32 : ℕ → ℕ) (phys_to_virt : ℕ → Option ℕ) (bars : List Bar) where
  unfoldable pub cap_of : {T : Type 0} → ℕ → T → Bar → VirtioCap T
  cap_of off cap bar = record {
    cap = cap;
    bar = bar;
    offset = read_u32 (at off 8);
    length = read_u32 (at off 12);
  }

  -- The structure in a memory bar; the outer `none` is a panic.
  unfoldable pub structure : ℕ → Bar → Option (Option (VirtioCap ℕ))
  unfolding cap_of
  structure off (mm phys) = do
    ptr ← phys_to_virt (phys + read_u32 (at off 8))
    some (some (cap_of off ptr (mm phys)))
  structure off bar = some none

  unfoldable pub store_cap : CfgType → ℕ → Caps → Option Caps
  unfolding cap_of structure
  store_cap common_cfg off caps = do
    bar ← get_elem? bars (read_u8 (at off 4))
    common ← structure off bar
    some (record caps { common = or_else common caps.common })
  store_cap notify_cfg off caps = do
    bar ← get_elem? bars (read_u8 (at off 4))
    some (record caps { notify = some (cap_of off (read_u32 (at off 16)) bar) })
  store_cap device_cfg off caps = do
    bar ← get_elem? bars (read_u8 (at off 4))
    device ← structure off bar
    some (record caps { device = or_else device caps.device })
  store_cap pci_cfg off caps = do
    let data_ =
        read_u8 (at off 16) ∷ read_u8 (at off 17) ∷ read_u8 (at off 18) ∷ read_u8 (at off 19) ∷ []
    bar ← get_elem? bars (read_u8 (at off 4))
    some (record caps { pci_conf = some (cap_of off data_ bar) })
  store_cap isr_cfg off caps = some caps
  store_cap other_cfg off caps = some caps

  -- The body of the loop up to the next offset.
  unfoldable pub read_cap : ℕ → Caps → Option Caps
  unfolding store_cap cfg_type_of
  read_cap off caps =
      if read_u8 off == 9 then store_cap (cfg_type_of (read_u8 (at off 3))) off caps else some caps

  unfoldable pub scan_caps : ℕ → ℕ → Caps → Scanned
  scan_caps zero off caps = out_of_fuel
  scan_caps (suc fuel) off caps = elim (read_cap off caps) [
    | none ↦ panic
    | some caps' ↦
        let next = read_u8 (at off 1) in
        let rest = scan_caps fuel next caps' in if next == 0 then found caps' else rest
  ]
