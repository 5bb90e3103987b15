-- ===== src/Apps/Image/Tests.antt =====
-- An image of two segments, with one relocation in the second.
use fomos.Common.{ℕ, ◌≡◌, refl, inr, true, some, List, [], ◌∷◌, length, get_or, arith}
use fomos.Apps.Image.{Segment, Elf, max_virt, load}
use fomos.Apps.Image.Bytes.{segment_byte}
use fomos.Apps.Image.Contents.{file_byte, load_lem}

abbrev code_segment : Segment
code_segment = record { is_load = true; virtual_addr = 0; mem_size = 3; offset = 1; file_size = 3 }

abbrev data_segment : Segment
data_segment = record { is_load = true; virtual_addr = 4; mem_size = 10; offset = 4; file_size = 2 }

abbrev two_segments : Elf
two_segments = record {
  segments = code_segment ∷ (data_segment ∷ []);
  rela_dyn = some (record { offset = 6; addend = 2 } ∷ []);
  entry_point = 0;
}

abbrev file : List ℕ
file = 127 ∷ 11 ∷ 12 ∷ 13 ∷ 21 ∷ 22 ∷ []

relocated_image :
    load 0x1000 file two_segments
    ≡ some (11 ∷ 12 ∷ 13 ∷ 0 ∷ 21 ∷ 22 ∷ 2 ∷ 16 ∷ 0 ∷ 0 ∷ 0 ∷ 0 ∷ 0 ∷ 0 ∷ [])
unfolding load
relocated_image = refl

load_lem_example :
    (image : List ℕ) × (load 0x1000 file two_segments ≡ some image)
    × (length image ≡ 14)
    × (get_or image 5 0 ≡ 22)
unfolding max_virt file_byte segment_byte
load_lem_example =
    load_lem 0x1000 5 file two_segments (omega arith)
      (
        record { in_file = omega arith; in_memory = omega arith; no_wrap = omega arith },
        (record { in_file = omega arith; in_memory = omega arith; no_wrap = omega arith }, tt),
      )
      (omega arith, tt) (inr (omega arith), tt)
