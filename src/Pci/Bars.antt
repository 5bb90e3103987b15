-- ===== src/Pci/Bars.antt =====
-- `get_bar` and the layout of a base address register in the PCI specification.
use mathlib.Core.Option
use fomos.Common.{ℕ, ◌+◌, ◌*◌, ◌/◌, ◌%◌, Bool, ◌&&◌, ◌==◌, if◌then◌else◌}
use fomos.Pci.{Pci, Bar, no_bar, io, mm}

-- The address in the bits from 4 on; an address 0 is no bar.
unfoldable pub memory_of : ℕ → Bar
memory_of a = if a / 16 == 0 then no_bar else mm (a / 16 * 16)

-- The bar of the register `lo`: bit 0 is set on an io bar, and bit 2 on a memory bar whose upper
-- half is in the next register, `hi`, where there is one.
unfoldable pub bar_of : ℕ → ℕ → Bool → Bar
unfolding memory_of
bar_of lo hi more =
    if lo == 0
    then no_bar
    else if lo % 2 == 1
    then io (lo / 4 * 4)
    else memory_of (if (lo / 4 % 2 == 1) && more then hi * 0x100000000 + lo else lo)
