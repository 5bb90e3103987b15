-- ===== src/Memory/Paging.antt =====
-- bootloader/kernel/src/main.rs and allocator.rs: pages mapped onto frames of the allocator. The
-- page table is the crate x86_64's `Mapper`, an interface here; so are the roundings of addresses.
pub mod Identity
use fomos.Common.{
  refl, ℕ, zero, suc, ◌+◌, ◌-◌, ◌*◌, ◌/◌, ◌≡◌, Option, none, some, List, ◌∷◌, ◌==◌, if◌then◌else◌,
}
use fomos.Memory.{BootInfoFrameAllocator, allocate_frame}

-- `map_to page frame` may take frames for the page tables, and fails with an error; if it succeeds
-- the page is mapped, as documented. `mapped` lists the pairs of page and frame, newest first.
pub record Mapper : Type 1 where
  pub Table : Type 0
  pub map_to :
      (page frame : ℕ) → Table → BootInfoFrameAllocator → Option Table × BootInfoFrameAllocator
  pub mapped : Table → List (ℕ × ℕ)
  pub map_to-mapped :
      (page frame : ℕ) (t t' : Table) (a : BootInfoFrameAllocator)
      → (map_to page frame t a).0 ≡ some t'
      → mapped t' ≡ (page, frame) ∷ mapped t

abbrev pub heap_start : ℕ
heap_start = 0x4444_4444_0000

abbrev pub heap_size : ℕ
heap_size = 128 * 1024 * 1024

-- `map_error` is the error `MapToError`.
pub data Outcome (A : Type 0) : Type 0 where
  ok : A → Outcome A
  map_error panic : Outcome A

infixl 5 ◌>>=◌
abbrev pub ◌>>=◌ : {A B : Type 0} → Outcome A → (A → Outcome B) → Outcome B
ok a >>= k = k a
map_error >>= k = map_error
panic >>= k = panic

pub >>=-eq-ok :
    {A B : Type 0} (m : Outcome A) (k : A → Outcome B) {b : B}
    → (m >>= k) ≡ ok b
    → (a : A) × (m ≡ ok a) × (k a ≡ ok b)
>>=-eq-ok (ok a) k e = (a, refl, e)
>>=-eq-ok map_error k e = cc
>>=-eq-ok panic k e = cc

-- `unwrap()` of the frame.
unwrap : Option ℕ × BootInfoFrameAllocator → Outcome (ℕ × BootInfoFrameAllocator)
unwrap (none, a) = panic
unwrap (some frame, a) = ok (frame, a)

-- `ok_or(MapToError::FrameAllocationFailed)?` of the frame.
ok_or_error : Option ℕ × BootInfoFrameAllocator → Outcome (ℕ × BootInfoFrameAllocator)
ok_or_error (none, a) = map_error
ok_or_error (some frame, a) = ok (frame, a)

module _ (mapper : Mapper) where
  open mapper use {Table}

  abbrev pub State : Type 0
  State = Table × BootInfoFrameAllocator

  mapped_or_error : Option Table × BootInfoFrameAllocator → Outcome State
  mapped_or_error (none, a) = map_error
  mapped_or_error (some t, a) = ok (t, a)

-- `containing_address` rounds to the start of the frame, and `page_of` to that of the page.
module _ (mapper : Mapper) (containing_address page_of : ℕ → ℕ) where
  open mapper use {Table, map_to}

  -- `next` is the counter OTHER_VIRT before the call, which leaves it 4096 higher.
  unfoldable pub create_virt_from_phys : ℕ → ℕ → State mapper → Outcome (ℕ × State mapper)
  unfolding mapped_or_error
  create_virt_from_phys next frame (t, a) = do
    s ← mapped_or_error mapper (map_to (page_of next) frame t a)
    ok (page_of next, s)

  unfoldable pub create_identity_virt_from_phys : State mapper → Outcome (ℕ × State mapper)
  unfolding mapped_or_error unwrap
  create_identity_virt_from_phys (t, a) = do
    (frame, a') ← unwrap (allocate_frame containing_address a)
    s ← mapped_or_error mapper (map_to (page_of frame) frame t a')
    ok (page_of frame, s)

  -- `for i in 1..pages`: the frames have to follow one another.
  check_contiguous : ℕ → ℕ → ℕ → BootInfoFrameAllocator → Outcome BootInfoFrameAllocator
  unfolding unwrap
  check_contiguous first i zero a = ok a
  check_contiguous first i (suc n) a = do
    (frame, a') ← unwrap (allocate_frame containing_address a)
    let rest = check_contiguous first (i + 1) n a'
    if first + i * 4096 == frame then rest else panic

  -- `for i in 0..pages`: each page is mapped onto the frame of its own address.
  map_pages : ℕ → ℕ → ℕ → State mapper → Outcome (State mapper)
  unfolding mapped_or_error
  map_pages first i zero s = ok s
  map_pages first i (suc n) (t, a) = do
    s ←
        mapped_or_error mapper
          (map_to (page_of (first + i * 4096)) (containing_address (first + i * 4096)) t a)
    map_pages first (i + 1) n s

  unfoldable pub create_identity_virt_from_phys_n : ℕ → State mapper → Outcome (ℕ × State mapper)
  unfolding check_contiguous map_pages
  create_identity_virt_from_phys_n pages (t, a) = do
    (first, a') ← unwrap (allocate_frame containing_address a)
    a'' ← check_contiguous first 1 (pages - 1) a'
    s ← map_pages first 0 pages (t, a'')
    ok (page_of first, s)

  -- `init_heap`: a fresh frame for each page of the heap. (The library's heap is set up after it.)
  map_heap : ℕ → ℕ → State mapper → Outcome (State mapper)
  unfolding mapped_or_error ok_or_error
  map_heap page zero s = ok s
  map_heap page (suc n) (t, a) = do
    (frame, a') ← ok_or_error (allocate_frame containing_address a)
    s ← mapped_or_error mapper (map_to page frame t a')
    map_heap (page + 4096) n s

  unfoldable pub init_heap : State mapper → Outcome (State mapper)
  unfolding map_heap
  init_heap s = map_heap heap_start (heap_size / 4096) s
