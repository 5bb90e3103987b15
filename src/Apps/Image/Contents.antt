-- ===== src/Apps/Image/Contents.antt =====
-- The whole image: what `App::new` makes of the file of an app.
use fomos.Common.{
  ℕ, zero, suc, ◌+◌, ◌^◌, ◌≤◌, ◌<◌, max, ◌≡◌, refl, sym, ap, subst, ◌∙◌, ◌⊎◌, inl, inr, true, false,
  Option, some, List, [], ◌∷◌, All, ltb, foldl, length, get_or, replicate, if◌then◌else◌,
  length-replicate, Bool-cases, if_true, arith,
}
use fomos.Apps.Image.{Segment, Rela, Elf, segment_end, max_virt, load_segments, load}
use fomos.Apps.Image.Bytes.{
  IsInside, IsApart, relocations, segment_byte, FitsFile, Gives, load_segment_lem,
}

-- The byte at `a` of the last segment that has one, or the byte that was there.
unfoldable pub file_byte : List ℕ → ℕ → ℕ → List Segment → ℕ
file_byte code a old segments = foldl (segment_byte code a) old segments

-- A segment with bytes ends in the buffer.
abbrev HasRoom : ℕ → Segment → Type 0
HasRoom n s = (s.file_size ≡ 0) ⊎ (s.virtual_addr + s.file_size ≤ n)

max_virt-le : (top : ℕ) (segments : List Segment) → top ≤ max_virt top segments
unfolding max_virt
max_virt-le top [] = omega arith
max_virt-le top (s ∷ segments) =
    let later = max_virt-le (if ltb 0 s.mem_size then max top (segment_end s) else top) segments in
    ground (arith, later)

max_virt-HasRoom :
    (code : List ℕ) (n top : ℕ) (segments : List Segment)
    → All (FitsFile code) segments
    → max_virt top segments ≤ n
    → All (HasRoom n) segments
unfolding max_virt
max_virt-HasRoom code n top [] fits below = tt
max_virt-HasRoom code n top (s ∷ segments) (first, fits) below =
    (room (Bool-cases (ltb 0 s.mem_size)), max_virt-HasRoom code n top' segments fits below)
  where
    top' : ℕ
    top' = if ltb 0 s.mem_size then max top (segment_end s) else top

    room : (ltb 0 s.mem_size ≡ true) ⊎ (ltb 0 s.mem_size ≡ false) → HasRoom n s
    room (inl some_bytes) =
        let later = max_virt-le top' segments in
        let reached = if_true (ltb 0 s.mem_size) (max top (segment_end s)) top some_bytes in
        inr (omega (arith, later, reached, below))
    room (inr no_bytes) = inl (ground arith)

load_segments_lem :
    (base a : ℕ) (code : List ℕ) (rela_dyn : Option (List Rela)) (image : List ℕ)
    (segments : List Segment)
    → length code < 2 ^ 64
    → All (FitsFile code) segments
    → All (HasRoom (length image)) segments
    → All (IsInside (length image)) (relocations rela_dyn)
    → All (IsApart a) (relocations rela_dyn)
    → Gives a image
        (load_segments base code rela_dyn image segments)
        (file_byte code a (get_or image a 0) segments)
unfolding load_segments file_byte
load_segments_lem base a code rela_dyn image [] small fits room inside apart =
    (image, refl, refl, refl)
load_segments_lem base a code rela_dyn image (s ∷ segments) small (first, fits) (space, room) inside
      apart =
    let (image1, run, len, value) =
      load_segment_lem base a code rela_dyn image s small first space inside apart in
    let (image', rest, len', value') =
      load_segments_lem base a code rela_dyn image1 segments small fits
        (subst (λ n. All (HasRoom n) segments) (sym len) room)
        (subst (λ n. All (IsInside n) (relocations rela_dyn)) (sym len) inside) apart in
    (
      image',
      rw run rest,
      len' ∙ len,
      value' ∙ ap (λ old. foldl (segment_byte code a) old segments) value,
    )

get_or-replicate : (n a x : ℕ) → get_or (replicate n x) a x ≡ x
get_or-replicate zero a x = refl
get_or-replicate (suc n) zero x = refl
get_or-replicate (suc n) (suc a) x = get_or-replicate n a x

-- When the bytes of the segments lie in the file and fit into their memory, and the relocations lie
-- in the image, `App::new` does not leave the buffer, which is as long as the end of the last
-- segment; a byte that no relocation touches is that of the last segment that has one, or 0.
pub load_lem :
    (base a : ℕ) (code : List ℕ) (elf : Elf)
    → length code < 2 ^ 64
    → All (FitsFile code) elf.segments
    → All (IsInside (max_virt 0 elf.segments)) (relocations elf.rela_dyn)
    → All (IsApart a) (relocations elf.rela_dyn)
    → (image : List ℕ) × (load base code elf ≡ some image)
      × (length image ≡ max_virt 0 elf.segments)
      × (get_or image a 0 ≡ file_byte code a 0 elf.segments)
unfolding load
load_lem base a code elf small fits inside apart =
    let n = max_virt 0 elf.segments in
    let zeros = replicate n 0 in
    let long = length-replicate n 0 in
    let (image, run, len, value) =
      load_segments_lem base a code elf.rela_dyn zeros elf.segments small fits
        (max_virt-HasRoom code (length zeros) 0 elf.segments fits (omega (arith, long)))
        (subst (λ m. All (IsInside m) (relocations elf.rela_dyn)) (sym long) inside) apart in
    (
      image,
      run,
      len ∙ long,
      value ∙ ap (λ old. file_byte code a old elf.segments) (get_or-replicate n a 0),
    )
