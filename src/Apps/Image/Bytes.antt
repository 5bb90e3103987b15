-- ===== src/Apps/Image/Bytes.antt =====
-- One byte of the image of an app, through the copies and the relocations of `App::new`.
use fomos.Common.{
  ℕ, zero, suc, ◌+◌, ◌-◌, ◌%◌, ◌^◌, ◌≤◌, ◌<◌, ◌≡◌, refl, sym, ap, subst, ◌∙◌, ◌≢◌, ◌⊎◌, inl, inr,
  Bool, true, false, ◌&&◌, Option, none, some, List, [], ◌∷◌, All, ltb, leb, length, get_or, set,
  if◌then◌else◌, ◌>>=◌, if_true, if_false, put-eq-set, get_elem?-eq-get_or, get_or-set_self,
  get_or-set_ne, length-set, Bool-cases, ◌==◌, ==_iff, arith,
}
use fomos.Common.Bytes.{le_bytes}
use fomos.Apps.Image.{
  Segment, Rela, segment_end, copy_bytes, write_u64, relocate, relocated, load_segment,
}

abbrev pub within : ℕ → ℕ → ℕ → Bool
within a at n = leb at a && ltb a (at + n)

-- What a step that returns an image of the same length makes of the byte at `a`.
abbrev pub Gives : ℕ → List ℕ → Option (List ℕ) → ℕ → Type 0
Gives a image result byte =
    (image' : List ℕ) × (result ≡ some image')
    × (length image' ≡ length image)
    × (get_or image' a 0 ≡ byte)

same_or_not : (a b : ℕ) → (a ≡ b) ⊎ ((a ≢ b) × (b ≢ a))
same_or_not a b = elim (Bool-cases (a == b)) [
  | inl e ↦ inl ((==_iff a b).0 e)
  | inr ne ↦ inr ((λ e. ground (arith, ne, e)), (λ e. ground (arith, ne, e)))
]

first_or_later :
    (code image : List ℕ) (a e at n : ℕ)
    → at < length image
    → (if within a (at + 1) n
        then get_or code (e + 1 + (a - (at + 1))) 0
        else get_or (set image at (get_or code e 0)) a 0)
      ≡ (if within a at (suc n) then get_or code (e + (a - at)) 0 else get_or image a 0)
first_or_later code image a e at n inside = elim (same_or_not a at) [
  | inl here ↦
      if_false (within a (at + 1) n) _ _ (ground (arith, here))
      ∙ ap (λ i. get_or (set image at (get_or code e 0)) i 0) here
      ∙ get_or-set_self image at (get_or code e 0) 0 inside
      ∙ ap (λ i. get_or code i 0) (omega (arith, here))
      ∙ sym (if_true (within a at (suc n)) _ _ (ground (arith, here)))
  | inr (elsewhere, apart) ↦ elim (Bool-cases (within a at (suc n))) [
    | inl inside_it ↦
        if_true (within a (at + 1) n) _ _ (ground (arith, elsewhere, inside_it))
        ∙ ap (λ i. get_or code i 0) (ground (arith, elsewhere, inside_it))
        ∙ sym (if_true (within a at (suc n)) _ _ inside_it)
    | inr outside ↦
        if_false (within a (at + 1) n) _ _ (ground (arith, outside))
        ∙ get_or-set_ne image (get_or code e 0) 0 apart
        ∙ sym (if_false (within a at (suc n)) _ _ outside)
  ]
]

copy_bytes_lem :
    (code image : List ℕ) (a e at n : ℕ)
    → e + n ≤ length code
    → (n ≡ 0) ⊎ (at + n ≤ length image)
    → Gives a image
        (copy_bytes code image e at n)
        (if within a at n then get_or code (e + (a - at)) 0 else get_or image a 0)
unfolding copy_bytes
copy_bytes_lem code image a e at zero source target =
    (image, refl, refl, sym (if_false (within a at 0) _ _ (ground arith)))
copy_bytes_lem code image a e at (suc n) source (inl none_left) = absurd (omega arith)
copy_bytes_lem code image a e at (suc n) source (inr target) =
    let byte = get_or code e 0 in
    let image1 = set image at byte in
    let longer = length-set image at byte in
    let (image', rest, len, value) =
      copy_bytes_lem code image1 a (e + 1) (at + 1) n (omega arith) (inr (omega arith)) in
    (
      image',
      rw (get_elem?-eq-get_or code e 0 (omega arith), put-eq-set image at byte (omega arith)) rest,
      len ∙ longer,
      value ∙ first_or_later code image a e at n (omega arith),
    )

-- The eight bytes of a relocation are in the image; they leave out the byte at `a`.
abbrev pub IsInside : ℕ → Rela → Type 0
IsInside top r = r.offset + 8 ≤ top

abbrev pub IsApart : ℕ → Rela → Type 0
IsApart a r = (r.offset + 8 ≤ a) ⊎ (a < r.offset)

abbrev pub relocations : Option (List Rela) → List Rela
relocations none = []
relocations (some relas) = relas

write_u64_lem :
    (image : List ℕ) (a v : ℕ) (r : Rela)
    → IsInside (length image) r
    → IsApart a r
    → Gives a image (write_u64 image r.offset v) (get_or image a 0)
unfolding write_u64 le_bytes
write_u64_lem image a v r inside apart =
    let (image', run, len, value) =
      copy_bytes_lem (le_bytes 8 v) image a 0 r.offset 8 (omega arith) (inr inside) in
    (image', run, len, value ∙ if_false (within a r.offset 8) _ _ (outside apart))
  where
    outside : IsApart a r → within a r.offset 8 ≡ false
    outside (inl h) = ground arith
    outside (inr h) = ground arith

relocate_lem :
    (base a : ℕ) (s : Segment) (image : List ℕ) (relas : List Rela)
    → All (IsInside (length image)) relas
    → All (IsApart a) relas
    → Gives a image (relocate base s image relas) (get_or image a 0)
unfolding relocate
relocate_lem base a s image [] inside apart = (image, refl, refl, refl)
relocate_lem base a s image (r ∷ relas) (first, inside) (clear, apart) =
    let here = leb s.virtual_addr r.offset && ltb r.offset (segment_end s) in
    let (image1, run, len, value) = one here in
    let (image', rest, len', value') =
      relocate_lem base a s image1 relas (subst (λ n. All (IsInside n) relas) (sym len) inside)
        apart in
    (image', rw run rest, len' ∙ len, value' ∙ value)
  where
    one :
        (b : Bool)
        → Gives a image
            (if b then write_u64 image r.offset ((r.addend + base) % 2 ^ 64) else some image)
            (get_or image a 0)
    one true = write_u64_lem image a ((r.addend + base) % 2 ^ 64) r first clear
    one false = (image, refl, refl, refl)

-- The byte at `a` that a segment has there, in the file.
unfoldable pub segment_byte : List ℕ → ℕ → ℕ → Segment → ℕ
segment_byte code a old s =
    if s.is_load && (leb s.virtual_addr a && ltb a (s.virtual_addr + s.file_size))
    then get_or code (s.offset + (a - s.virtual_addr)) 0
    else old

-- A segment whose bytes are in the file, and fit into its place in memory.
pub record FitsFile (code : List ℕ) (s : Segment) : Type 0 where
  pub in_file : s.offset + s.file_size ≤ length code
  pub in_memory : s.file_size ≤ s.mem_size
  pub no_wrap : s.virtual_addr + s.mem_size < 2 ^ 64

relocated_lem :
    (base a : ℕ) (s : Segment) (rela_dyn : Option (List Rela)) (image : List ℕ)
    → All (IsInside (length image)) (relocations rela_dyn)
    → All (IsApart a) (relocations rela_dyn)
    → Gives a image (relocated base s rela_dyn image) (get_or image a 0)
unfolding relocated
relocated_lem base a s none image inside apart = (image, refl, refl, refl)
relocated_lem base a s (some relas) image inside apart =
    relocate_lem base a s image relas inside apart

pub load_segment_lem :
    (base a : ℕ) (code : List ℕ) (rela_dyn : Option (List Rela)) (image : List ℕ) (s : Segment)
    → length code < 2 ^ 64
    → FitsFile code s
    → (s.file_size ≡ 0) ⊎ (s.virtual_addr + s.file_size ≤ length image)
    → All (IsInside (length image)) (relocations rela_dyn)
    → All (IsApart a) (relocations rela_dyn)
    → Gives a image
        (load_segment base code rela_dyn image s)
        (segment_byte code a (get_or image a 0) s)
unfolding load_segment segment_byte
load_segment_lem base a code rela_dyn image s small fits target inside apart = by_type s.is_load
  where
    rounds : ℕ
    rounds = (s.offset + s.file_size) % 2 ^ 64 - s.offset

    all_bytes : rounds ≡ s.file_size
    all_bytes = omega arith

    by_type :
        (b : Bool)
        → Gives a image
            (if b
              then (copy_bytes code image s.offset s.virtual_addr rounds
                  >>= relocated base s rela_dyn)
              else some image)
            (if b && within a s.virtual_addr s.file_size
              then get_or code (s.offset + (a - s.virtual_addr)) 0
              else get_or image a 0)
    by_type false = (image, refl, refl, refl)
    by_type true =
        let (image1, run, len, value) =
          copy_bytes_lem code image a s.offset s.virtual_addr rounds (omega arith)
            (ground (arith, target)) in
        let still = subst (λ n. All (IsInside n) (relocations rela_dyn)) (sym len) inside in
        let (image', rest, len', value') = relocated_lem base a s rela_dyn image1 still apart in
        (
          image',
          rw run rest,
          len' ∙ len,
          value'
              ∙ value
              ∙ ap
                  (λ n.
                    if within a s.virtual_addr n
                    then get_or code (s.offset + (a - s.virtual_addr)) 0
                    else get_or image a 0)
                  all_bytes,
        )
