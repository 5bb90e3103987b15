-- ===== src/Pci/Scan.antt =====
-- `Pcis::new`: the functions that the scan of the buses finds.
use Prim.Native.Nat.{bit_and}
use mathlib.Core.List.{flat_map}
use fomos.Common.{
  ℕ, zero, suc, ◌+◌, ◌*◌, ◌/◌, ◌<◌, ◌≡◌, refl, ap, ap₂, ◌∙◌, fun_ext, Bool, true, false, not, ◌&&◌,
  List, [], ◌∷◌, ◌++◌, map, ◌==◌, ==_ne, if◌then◌else◌, arith,
}
use fomos.Common.Bits.{bit_and_mask, bit_and-shl}
use fomos.Pci.Ports.{ConfigPorts}
use fomos.Pci.{
  Pci, config_read_u16, config_read_u8, scan_funcs, scan_slots, scan_buses, scan, pci_vendor_id,
  pci_device_id, pci_header_type,
}
use fomos.Pci.Registers.{address}
use fomos.Pci.Parts.{half, byte}
use fomos.Pci.Words.{config_read_u16_lem, config_read_u8_lem, register-config_read_u32}

-- `n` numbers from `k` on.
unfoldable pub count : ℕ → ℕ → List ℕ
count zero k = []
count (suc n) k = k ∷ count n (k + 1)

unfoldable pub keep {ℓ} : {A : Type ℓ} → (A → Bool) → List A → List A
keep p [] = []
keep p (x ∷ xs) = if p x then x ∷ keep p xs else keep p xs

-- A function with a vendor, in the registers of the machine.
unfoldable pub is_present : (ℕ → ℕ) → Pci → Bool
is_present registers pci = not (half 0 (registers (address pci pci_vendor_id)) == 0xFFFF)

-- Bit 7 of the header type is clear: the device has no function but 0.
unfoldable pub has_one_function : (ℕ → ℕ) → Pci → Bool
has_one_function registers pci = byte 2 (registers (address pci pci_header_type)) / 128 == 0

abbrev function : ℕ → ℕ → ℕ → Pci
function bus slot func = record { bus = bus; slot = slot; func = func }

-- The functions of a slot: function 0 alone, or every one that is present.
unfoldable pub slot_functions : (ℕ → ℕ) → ℕ → ℕ → List Pci
unfolding is_present has_one_function keep
slot_functions registers bus slot =
    let first = function bus slot 0 in
    if is_present registers first && has_one_function registers first
    then first ∷ []
    else keep (is_present registers) (map (function bus slot) (count 8 0))

-- The functions of a bus.
abbrev pub bus_functions : (ℕ → ℕ) → ℕ → List Pci
bus_functions registers bus = flat_map (slot_functions registers bus) (count 32 0)

header_bit : (h : ℕ) → h < 256 → (bit_and h 0x80 == 0) ≡ (h / 128 == 0)
header_bit h small =
    ap (λ n. n == 0) (bit_and-shl 7 h 1 ∙ ap (λ n. n * 128) (bit_and_mask 1 (h / 128)))
    ∙ ground arith

if-and_false {ℓ} :
    {A : Type ℓ} (b : Bool) (x y z : A)
    → (if b && false then x else if b then y else z) ≡ (if b then y else z)
if-and_false true x y z = refl
if-and_false false x y z = refl

-- The functions of a slot that are present, `n` from `func` on.
abbrev present_from : (ℕ → ℕ) → ℕ → ℕ → ℕ → ℕ → List Pci
present_from registers bus slot n func =
    keep (is_present registers) (map (function bus slot) (count n func))

module _ (ports : ConfigPorts) where
  open ports use {State, register}

  -- A list of functions and the registers after it was found.
  abbrev seen : List Pci × State → List Pci × (ℕ → ℕ)
  seen (found, s) = (found, register s)

  register-read_u16 :
      (s : State) (pci : Pci) (off : ℕ) → register (config_read_u16 ports s pci off).1 ≡ register s
  unfolding config_read_u16
  register-read_u16 s pci off = fun_ext (register-config_read_u32 ports s pci off)

  register-read_u8 :
      (s : State) (pci : Pci) (off : ℕ) → register (config_read_u8 ports s pci off).1 ≡ register s
  unfolding config_read_u8
  register-read_u8 s pci off = fun_ext (register-config_read_u32 ports s pci off)

  -- What one round of the loop over the functions reads.
  vendor_read :
      (s : State) (pci : Pci)
      → not ((config_read_u16 ports s pci pci_vendor_id).0 == 0xFFFF) ≡ is_present (register s) pci
  unfolding is_present
  vendor_read s pci = ap (λ n. not (n == 0xFFFF)) (config_read_u16_lem ports s pci pci_vendor_id)

  header_read :
      (s : State) (pci : Pci)
      → (bit_and (config_read_u8 ports s pci pci_header_type).0 0x80 == 0)
        ≡ has_one_function (register s) pci
  unfolding has_one_function
  header_read s pci =
      let read = config_read_u8_lem ports s pci pci_header_type in
      header_bit (config_read_u8 ports s pci pci_header_type).0 (omega (arith, read))
      ∙ ap (λ h. h / 128 == 0) read

  -- A round of the loop: on to the next function, or out of the loop after this one.
  seen-round :
      (absent last : Bool) (pci : Pci) (over more : List Pci × State) (s : State) (found : List Pci)
      (registers : ℕ → ℕ)
      → seen over ≡ (found, registers)
      → seen more ≡ (found, registers)
      → register s ≡ registers
      → seen (if absent then over else if last then (pci ∷ [], s) else (pci ∷ more.0, more.1)) ≡ (
        (if not absent && last then pci ∷ [] else if not absent then pci ∷ found else found),
        registers,
      )
  seen-round true last pci over more s found registers p q r = p
  seen-round false true pci over more s found registers p q r = ap (λ t. (pci ∷ [], t)) r
  seen-round false false pci over more s found registers p q r = ap (λ l. (pci ∷ l.0, l.1)) q

  -- The machine after the vendor, and after the header of a function are read.
  abbrev vendor_state : State → Pci → State
  vendor_state s pci = (config_read_u16 ports s pci pci_vendor_id).1

  abbrev device_state : State → Pci → State
  device_state s pci = (config_read_u16 ports (vendor_state s pci) pci pci_device_id).1

  abbrev header_state : State → Pci → State
  header_state s pci = (config_read_u8 ports (device_state s pci) pci pci_header_type).1

  register-device : (s : State) (pci : Pci) → register (device_state s pci) ≡ register s
  register-device s pci =
      register-read_u16 (vendor_state s pci) pci pci_device_id
      ∙ register-read_u16 s pci pci_vendor_id

  register-header : (s : State) (pci : Pci) → register (header_state s pci) ≡ register s
  register-header s pci =
      register-read_u8 (device_state s pci) pci pci_header_type ∙ register-device s pci

  seen-funcs :
      (s : State) (bus slot rounds func : ℕ)
      → 0 < func
      → seen (scan_funcs ports s bus slot rounds func)
        ≡ (present_from (register s) bus slot rounds func, register s)
  unfolding scan_funcs keep count
  seen-funcs s bus slot zero func pos = refl
  seen-funcs s bus slot (suc rounds) func pos =
      let pci = function bus slot func in
      let found = present_from (register s) bus slot rounds (func + 1) in
      let header =
        bit_and (config_read_u8 ports (device_state s pci) pci pci_header_type).0 0x80 == 0 in
      let not_first : (func == 0 && header) ≡ false =
        ap (λ b. b && header) (==_ne func 0 (omega arith)) in
      seen-round ((config_read_u16 ports s pci pci_vendor_id).0 == 0xFFFF) (func == 0 && header) pci
        (scan_funcs ports (vendor_state s pci) bus slot rounds (func + 1))
        (scan_funcs ports (header_state s pci) bus slot rounds (func + 1)) (header_state s pci)
        found (register s)
        (seen-funcs (vendor_state s pci) bus slot rounds (func + 1) (omega arith)
          ∙ ap (λ t. (present_from t bus slot rounds (func + 1), t))
              (register-read_u16 s pci pci_vendor_id))
        (seen-funcs (header_state s pci) bus slot rounds (func + 1) (omega arith)
          ∙ ap (λ t. (present_from t bus slot rounds (func + 1), t)) (register-header s pci))
        (register-header s pci)
      ∙ ap₂ (λ b h. ((if b && h then pci ∷ [] else if b then pci ∷ found else found), register s))
          (vendor_read s pci) not_first
      ∙ ap (λ l. (l, register s))
          (if-and_false (is_present (register s) pci) (pci ∷ []) (pci ∷ found) found)

  seen-first :
      (s : State) (bus slot rounds : ℕ)
      → seen (scan_funcs ports s bus slot (suc rounds) 0) ≡ (
        (if is_present (register s) (function bus slot 0)
              && has_one_function (register s) (function bus slot 0)
            then function bus slot 0 ∷ []
            else present_from (register s) bus slot (suc rounds) 0),
        register s,
      )
  unfolding scan_funcs keep count
  seen-first s bus slot rounds =
      let pci = function bus slot 0 in
      let found = present_from (register s) bus slot rounds 1 in
      let header =
        header_read (device_state s pci) pci
        ∙ ap (λ t. has_one_function t pci) (register-device s pci) in
      seen-round ((config_read_u16 ports s pci pci_vendor_id).0 == 0xFFFF)
        (bit_and (config_read_u8 ports (device_state s pci) pci pci_header_type).0 0x80 == 0) pci
        (scan_funcs ports (vendor_state s pci) bus slot rounds 1)
        (scan_funcs ports (header_state s pci) bus slot rounds 1) (header_state s pci) found
        (register s)
        (seen-funcs (vendor_state s pci) bus slot rounds 1 (omega arith)
          ∙ ap (λ t. (present_from t bus slot rounds 1, t)) (register-read_u16 s pci pci_vendor_id))
        (seen-funcs (header_state s pci) bus slot rounds 1 (omega arith)
          ∙ ap (λ t. (present_from t bus slot rounds 1, t)) (register-header s pci))
        (register-header s pci)
      ∙ ap₂ (λ b h. ((if b && h then pci ∷ [] else if b then pci ∷ found else found), register s))
          (vendor_read s pci) header

  seen-slot :
      (s : State) (bus slot : ℕ)
      → seen (scan_funcs ports s bus slot 8 0) ≡ (slot_functions (register s) bus slot, register s)
  unfolding slot_functions
  seen-slot s bus slot = seen-first s bus slot 7

  seen-slots :
      (s : State) (bus rounds slot : ℕ)
      → seen (scan_slots ports s bus rounds slot)
        ≡ (flat_map (slot_functions (register s) bus) (count rounds slot), register s)
  unfolding scan_slots flat_map count
  seen-slots s bus zero slot = refl
  seen-slots s bus (suc rounds) slot =
      let first = seen-slot s bus slot in
      ap₂ (λ l m. (l ++ m.0, m.1)) (ap (λ m. m.0) first)
        (seen-slots (scan_funcs ports s bus slot 8 0).1 bus rounds (slot + 1)
          ∙ ap (λ t. (flat_map (slot_functions t bus) (count rounds (slot + 1)), t))
              (ap (λ m. m.1) first))

  seen-buses :
      (s : State) (rounds bus : ℕ)
      → seen (scan_buses ports s rounds bus)
        ≡ (flat_map (bus_functions (register s)) (count rounds bus), register s)
  unfolding scan_buses flat_map count
  seen-buses s zero bus = refl
  seen-buses s (suc rounds) bus =
      let first = seen-slots s bus 32 0 in
      ap₂ (λ l m. (l ++ m.0, m.1)) (ap (λ m. m.0) first)
        (seen-buses (scan_slots ports s bus 32 0).1 rounds (bus + 1)
          ∙ ap (λ t. (flat_map (bus_functions t) (count rounds (bus + 1)), t))
              (ap (λ m. m.1) first))

  -- The scan finds, in the order of the buses and the slots, function 0 alone of a device that has
  -- one function, and of any other slot the functions whose vendor is not 0xFFFF; the registers
  -- are what they were.
  pub scan_lem :
      (s : State)
      → ((scan ports s).0 ≡ flat_map (bus_functions (register s)) (count 256 0))
        × (register (scan ports s).1 ≡ register s)
  unfolding scan
  scan_lem s = (ap (λ m. m.0) (seen-buses s 256 0), ap (λ m. m.1) (seen-buses s 256 0))
