-- ===== src/Pci/Ports.antt =====
-- The ports 0xCF8 and 0xCFC of the crate x86_64 and the host bridge behind them: configuration
-- mechanism 1 as the PCI specification describes it. A register is a double word of the
-- configuration space, under its address.
use fomos.Common.{ℕ, ◌<◌, ◌≡◌, Option, some, ◌==◌, if◌then◌else◌}

pub record ConfigPorts : Type 1 where
  pub State : Type 0
  pub write : State → ℕ → ℕ → State
  pub read : State → ℕ → ℕ × State
  pub address : State → ℕ
  pub register : State → ℕ → ℕ
  pub register_word : (s : State) (r : ℕ) → register s r < 0x100000000
  pub address-write : (s : State) (a : ℕ) → address (write s 0xCF8 a) ≡ a
  pub register-write_address : (s : State) (a r : ℕ) → register (write s 0xCF8 a) r ≡ register s r
  pub read_data : (s : State) → (read s 0xCFC).0 ≡ register s (address s)
  pub address-read : (s : State) → address (read s 0xCFC).1 ≡ address s
  pub register-read : (s : State) (r : ℕ) → register (read s 0xCFC).1 r ≡ register s r
  -- PhysAddr::new, which panics on an address of more than 52 bits.
  pub phys_addr : ℕ → Option ℕ
  pub phys_addr-some : (a : ℕ) → a < 0x10000000000000 → phys_addr a ≡ some a

-- A register that keeps what is written to it, and whose writes leave the other registers.
pub record KeepsWrites (ports : ConfigPorts) (r : ℕ) : Type 0 where
  pub register-write :
      (s : ports.State) (v k : ℕ)
      → ports.address s ≡ r
      → v < 0x100000000
      → ports.register (ports.write s 0xCFC v) k ≡ (if r == k then v else ports.register s k)
