-- ===== src/Memory/Tests.antt =====
-- The frame allocator and the mapping of pages on a small memory map.
use fomos.Common.{ℕ, ◌*◌, ◌/◌, ◌≡◌, refl, true, false, some, List, [], ◌∷◌, arith, get_elem?}
use fomos.Memory.{MemoryRegion, BootInfoFrameAllocator, init, usable_frames, allocate_frame, after}
use fomos.Memory.Frames.{allocate_frame_nth}
use fomos.Memory.Paging.{Mapper, ok, create_identity_virt_from_phys_n}
use fomos.Memory.Paging.Identity.{Buffer, create_n-Buffer}

-- The start of the frame of 4096 bytes that an address lies in.
abbrev round_down : ℕ → ℕ
round_down a = a / 4096 * 4096

abbrev memory_map : List MemoryRegion
memory_map =
    record { start = 0x1000; end = 0x2000; usable = true }
    ∷ record { start = 0x2000; end = 0x5000; usable = false }
    ∷ record { start = 0x5000; end = 0x9000; usable = true }
    ∷ []

allocate_frame_nth_example :
    (allocate_frame round_down (after round_down 2 (init memory_map))).0
    ≡ get_elem? (usable_frames round_down memory_map) 2
allocate_frame_nth_example = allocate_frame_nth round_down memory_map 2 (omega arith)

-- A page table that is the list of its pairs, and takes no frames for itself.
abbrev list_mapper : Mapper
list_mapper = record {
  Table = List (ℕ × ℕ);
  map_to = λ page frame t a. (some ((page, frame) ∷ t), a);
  mapped = λ t. t;
  map_to-mapped = λ page frame t t' a e. cc;
}

-- The allocator once the first region is used up.
abbrev second_region : BootInfoFrameAllocator
second_region = (allocate_frame round_down (init memory_map)).1

abbrev three_pages : List (ℕ × ℕ)
three_pages = (0x7000, 0x7000) ∷ (0x6000, 0x6000) ∷ (0x5000, 0x5000) ∷ []

three_mapped :
    create_identity_virt_from_phys_n list_mapper round_down round_down 3 ([], second_region)
    ≡ ok (0x5000, (three_pages, after round_down 3 second_region))
unfolding create_identity_virt_from_phys_n allocate_frame after init mathlib.Core.List.flat_map
three_mapped = refl

create_n-Buffer_example :
    Buffer list_mapper round_down round_down 3 0x5000 [] three_pages second_region
unfolding allocate_frame init mathlib.Core.List.flat_map
create_n-Buffer_example =
    create_n-Buffer list_mapper round_down round_down 3 0x5000 [] three_pages second_region
      (after round_down 3 second_region) (omega arith) (omega arith) (omega arith) three_mapped
