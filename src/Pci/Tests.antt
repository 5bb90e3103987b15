-- ===== src/Pci/Tests.antt =====
-- The configuration space of a machine that keeps every write, and runs of the functions on it.
use mathlib.Core.Option
use mathlib.Core.List.{flat_map}
use fomos.Common.{
  ℕ, ◌%◌, ◌<◌, ◌≡◌, refl, ap, ◌∙◌, Bool, true, false, Option, none, some, ltb, ◌==◌, if◌then◌else◌,
  if_true, lt→ltb, arith,
}
use fomos.Pci.Ports.{ConfigPorts, KeepsWrites}
use fomos.Pci.{
  config_address, Pci, Bar, io, address_of, get_bar, scan, config_read_u16, config_write_u16,
}
use fomos.Pci.Registers.{address}
use fomos.Pci.Words
use fomos.Pci.Bars
use fomos.Pci.Scan

-- The address last written, and the registers.
record Machine : Type 0 where
  at : ℕ
  words : ℕ → ℕ

abbrev word_at : Machine → ℕ → ℕ
word_at m r = m.words r % 0x100000000

abbrev write_port : Machine → ℕ → ℕ → Machine
write_port m port v =
    if port == 0xCF8
    then record { at = v; words = m.words }
    else record { at = m.at; words = λ k. if m.at == k then v else m.words k }

word_fits : (m : Machine) (r : ℕ) → word_at m r < 0x100000000
word_fits m r = omega arith

abbrev phys_addr : ℕ → Option ℕ
phys_addr a = if ltb a 0x10000000000000 then some a else none

phys_addr-fits : (a : ℕ) → a < 0x10000000000000 → phys_addr a ≡ some a
phys_addr-fits a h = if_true (ltb a 0x10000000000000) (some a) none (lt→ltb a 0x10000000000000 h)

abbrev machine : ConfigPorts
machine = record {
  State = Machine;
  write = write_port;
  read = λ m port. (word_at m m.at, m);
  address = λ m. m.at;
  register = word_at;
  register_word = word_fits;
  address-write = λ m a. refl;
  register-write_address = λ m a r. refl;
  read_data = λ m. refl;
  address-read = λ m. refl;
  register-read = λ m r. refl;
  phys_addr = phys_addr;
  phys_addr-some = phys_addr-fits;
}

keeps_writes :
    (r : ℕ) (m : Machine) (v k : ℕ)
    → m.at ≡ r
    → v < 0x100000000
    → word_at (write_port m 0xCFC v) k ≡ (if r == k then v else word_at m k)
keeps_writes r m v k at_r small =
    ap (λ n. (if n == k then v else m.words k) % 0x100000000) at_r ∙ by_case (r == k)
  where
    by_case :
        (b : Bool)
        → (if b then v else m.words k) % 0x100000000 ≡ (if b then v else m.words k % 0x100000000)
    by_case true = omega arith
    by_case false = refl

abbrev machine-KeepsWrites : (r : ℕ) → KeepsWrites machine r
machine-KeepsWrites r = record { register-write = keeps_writes r }

-- A device with one function in slot 3 of bus 0, with an io bar and a memory bar of 64 bits.
abbrev device : Pci
device = record { bus = 0; slot = 3; func = 0 }

abbrev board_words : ℕ → ℕ
board_words r =
    if r == 0x80001800
    then 0x10001AF4
    else if r == 0x80001810
    then 0xC041
    else if r == 0x80001814
    then 0xFE00000C
    else if r == 0x80001818
    then 0x8
    else if r == 0x8000180C
    then 0
    else 0xFFFFFFFF

abbrev board : Machine
board = record { at = 0; words = board_words }

get_bar_io :
    Option.map (λ (r : Bar × Machine). r.0) (get_bar machine board device 0) ≡ some (io 0xC040)
unfolding get_bar address_of config_address
get_bar_io = refl

read-write_u16_example :
    (config_read_u16 machine (config_write_u16 machine board device 6 0x1234) device 6).0 ≡ 0x1234
unfolding address_of
read-write_u16_example =
    Words.read-write_u16 machine board device device 6 6 0x1234
      (machine-KeepsWrites (address device 6)) (omega arith)

scan_lem_example :
    ((scan machine board).0 ≡ flat_map (Scan.bus_functions (word_at board)) (Scan.count 256 0))
    × (word_at (scan machine board).1 ≡ word_at board)
scan_lem_example = Scan.scan_lem machine board
