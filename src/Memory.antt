-- ===== src/Memory.antt =====
-- bootloader/kernel/src/memory.rs: the allocator of physical frames. `containing_address` is
-- `PhysFrame::containing_address` of the crate x86_64, taken to the start address of the frame.
pub mod Frames
pub mod Paging
mod Tests
use mathlib.Core.List.{flat_map, reverse}
use fomos.Common.{
  ℕ, zero, suc, ◌+◌, ◌-◌, ◌/◌, ◌%◌, ◌^◌, Bool, Option, none, some, List, [], ◌∷◌, ◌++◌, map, length,
  take, drop, ◌==◌, if◌then◌else◌,
}

-- A region of the boot loader's memory map; `usable` says if its kind is `Usable`.
pub record MemoryRegion : Type 0 where
  pub start : ℕ
  pub end : ℕ
  pub usable : Bool

abbrev pub buffer_size_advance : ℕ
buffer_size_advance = 32

-- The head of `buf` is the end of the `ArrayVec`.
pub record BootInfoFrameAllocator : Type 0 where
  pub memory_map : List MemoryRegion
  pub next : ℕ
  pub buf : List ℕ

unfoldable pub init : List MemoryRegion → BootInfoFrameAllocator
init memory_map = record { memory_map = memory_map; next = 1; buf = [] }

addrs : ℕ → ℕ → List ℕ
addrs start zero = []
addrs start (suc n) = start ∷ addrs (start + 4096) n

-- `(r.start..r.end).step_by(4096)`
unfoldable pub addr_range : MemoryRegion → List ℕ
unfolding addrs
addr_range r = addrs r.start ((r.end - r.start + 4095) / 4096)

unfoldable pub usable_regions : List MemoryRegion → List MemoryRegion
usable_regions [] = []
usable_regions (r ∷ rs) = if r.usable then r ∷ usable_regions rs else usable_regions rs

push_all : List ℕ → List ℕ → List ℕ
push_all buf [] = buf
push_all buf (frame ∷ frames) = push_all (frame ∷ buf) frames

pop : BootInfoFrameAllocator → List ℕ → Option ℕ × BootInfoFrameAllocator
pop a [] = (none, a)
pop a (frame ∷ buf) = (some frame, record a { buf = buf })

module _ (containing_address : ℕ → ℕ) where
  unfoldable pub usable_frames : List MemoryRegion → List ℕ
  unfolding usable_regions addr_range
  usable_frames memory_map =
      map containing_address (flat_map addr_range (usable_regions memory_map))

  -- What `allocate_frame` does first, when the buffer is empty.
  refill : BootInfoFrameAllocator → BootInfoFrameAllocator
  unfolding usable_frames push_all
  refill a =
      let ahead = take buffer_size_advance (drop (a.next - 1) (usable_frames a.memory_map)) in
      record a {
        buf = reverse (push_all a.buf ahead);
        next = (a.next + buffer_size_advance) % 2 ^ 64;
      }

  unfoldable pub allocate_frame : BootInfoFrameAllocator → Option ℕ × BootInfoFrameAllocator
  unfolding refill pop
  allocate_frame a = let a' = if length a.buf == 0 then refill a else a in pop a' a'.buf

  -- The allocator after `n` calls.
  unfoldable pub after : ℕ → BootInfoFrameAllocator → BootInfoFrameAllocator
  unfolding allocate_frame
  after zero a = a
  after (suc n) a = after n (allocate_frame a).1
