-- ===== src/Apps/Image.antt =====
-- `App::new` of bootloader/kernel/src/app.rs: the image of an app in memory. The parser of the crate
-- xmas_elf gives the program headers and the section .rela.dyn; `base` is the address of the buffer
-- that the allocator returns. An access outside the buffer is `none`.
pub mod Bytes
pub mod Contents
mod Tests
use fomos.Common.{
  ℕ, zero, suc, ◌+◌, ◌-◌, ◌%◌, ◌/◌, ◌^◌, max, Bool, ◌&&◌, Option, none, some, List, [], ◌∷◌, ltb,
  leb, foldl, replicate, get_elem?, put, if◌then◌else◌, ◌>>=◌,
}
use fomos.Common.Bytes.{le_bytes}
use fomos.Apps.{Context, App}

-- A program header; `is_load` is whether its type is Load.
pub record Segment : Type 0 where
  pub is_load : Bool
  pub virtual_addr : ℕ
  pub mem_size : ℕ
  pub offset : ℕ
  pub file_size : ℕ

pub record Rela : Type 0 where
  pub offset : ℕ
  pub addend : ℕ

pub record Elf : Type 0 where
  pub segments : List Segment
  pub rela_dyn : Option (List Rela)
  pub entry_point : ℕ

abbrev pub segment_end : Segment → ℕ
segment_end s = (s.virtual_addr + s.mem_size) % 2 ^ 64

-- The first loop over the program headers.
unfoldable pub max_virt : ℕ → List Segment → ℕ
max_virt top [] = top
max_virt top (s ∷ segments) =
    max_virt (if ltb 0 s.mem_size then max top (segment_end s) else top) segments

-- The loop over the bytes `e` of a segment; `rounds` of them are left.
unfoldable pub copy_bytes : List ℕ → List ℕ → ℕ → ℕ → ℕ → Option (List ℕ)
copy_bytes code image e at zero = some image
copy_bytes code image e at (suc rounds) = do
  byte ← get_elem? code e
  image' ← put image at byte
  copy_bytes code image' (e + 1) (at + 1) rounds

-- `p64.write`
unfoldable pub write_u64 : List ℕ → ℕ → ℕ → Option (List ℕ)
unfolding copy_bytes le_bytes
write_u64 image at v = copy_bytes (le_bytes 8 v) image 0 at 8

-- The loop over the relocations, for one segment.
unfoldable pub relocate : ℕ → Segment → List ℕ → List Rela → Option (List ℕ)
unfolding write_u64
relocate base s image [] = some image
relocate base s image (r ∷ relas) = do
  image' ←
      if leb s.virtual_addr r.offset && ltb r.offset (segment_end s)
      then write_u64 image r.offset ((r.addend + base) % 2 ^ 64)
      else some image
  relocate base s image' relas

-- Without a section .rela.dyn nothing is relocated.
unfoldable pub relocated : ℕ → Segment → Option (List Rela) → List ℕ → Option (List ℕ)
unfolding relocate
relocated base s none image = some image
relocated base s (some relas) image = relocate base s image relas

-- The body of the second loop over the program headers.
unfoldable pub load_segment : ℕ → List ℕ → Option (List Rela) → List ℕ → Segment → Option (List ℕ)
unfolding copy_bytes relocated
load_segment base code rela_dyn image s =
    let rounds = (s.offset + s.file_size) % 2 ^ 64 - s.offset in
    if s.is_load
    then (copy_bytes code image s.offset s.virtual_addr rounds >>= relocated base s rela_dyn)
    else some image

unfoldable pub load_segments :
    ℕ → List ℕ → Option (List Rela) → List ℕ → List Segment → Option (List ℕ)
unfolding load_segment
load_segments base code rela_dyn image [] = some image
load_segments base code rela_dyn image (s ∷ segments) = do
  image' ← load_segment base code rela_dyn image s
  load_segments base code rela_dyn image' segments

unfoldable pub load : ℕ → List ℕ → Elf → Option (List ℕ)
unfolding max_virt load_segments
load base code elf =
    load_segments base code elf.rela_dyn (replicate (max_virt 0 elf.segments) 0) elf.segments

-- App::new without `show`. `next_id` is NEXT_ID, `func_at` the function at an address of the image.
module _ {Store World : Type 0} (elf_new : List ℕ → Option Elf)
    (func_at : List ℕ → ℕ → Context Store World → ℕ × Context Store World) where
  unfoldable pub new : ℕ → List ℕ → ℕ → Option (App Store World × ℕ)
  unfolding load
  new base code next_id = do
    elf ← elf_new code
    image ← load base code elf
    some (
      record { code = image; func = func_at image elf.entry_point; pid = next_id; store = none },
      (next_id + 1) % 2 ^ 64,
    )
