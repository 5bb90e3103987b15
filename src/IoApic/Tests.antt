-- ===== src/IoApic/Tests.antt =====
-- Entries of a machine whose two words are kept in the state, with the register that is selected.
use fomos.Common.{ℕ, ◌%◌, ◌≡◌, true, false, ◌==◌, if◌then◌else◌, arith}
use fomos.IoApic
use fomos.IoApic.{RedTbl, new, store, Mmio, write, ioapic_handler_2}
use fomos.IoApic.Entries.{ioapic_handler_2_lem}

record Machine : Type 0 where
  at : ℕ
  words : ℕ → ℕ

abbrev machine : Mmio
machine = record {
  State = Machine;
  volatile_load = λ m a. (m.words m.at % 0x100000000, m);
  volatile_store = λ m a v.
      if a == 0
      then record { at = v; words = m.words }
      else record { at = m.at; words = λ k. if m.at == k then v else m.words k };
  load_word = λ m a. omega arith;
}

-- A masked entry, with vector 0x31 and destination 1.
abbrev masked : Machine
masked = record { at = 0; words = λ k. if k == 0x14 then 0x10031 else 0x01000000 }

abbrev entry : RedTbl
entry = record {
  vector = 0x31;
  delivery_mode = 1;
  destination_mode = false;
  delivery_status = false;
  pin_polarity = true;
  remote_irr = false;
  trigger_mode = true;
  mask = true;
  destination = 3;
}

ioapic_handler_2_lem_example :
    ioapic_handler_2 machine 0 masked
    ≡ write machine 0
        (write machine 0 (record { at = 0x15; words = masked.words }) 0x14 0x31)
        0x15
        0x01000000
unfolding IoApic.read
ioapic_handler_2_lem_example = ioapic_handler_2_lem machine 0 masked
