-- ===== src/Memory/Paging/Identity.antt =====
-- `create_identity_virt_from_phys_n` of bootloader/kernel/src/main.rs: buffers for devices, which
-- see physical addresses, at the same virtual addresses.
use fomos.Common.{
  ℕ, zero, suc, ◌+◌, ◌-◌, ◌*◌, ◌^◌, ◌≤◌, ◌<◌, ◌≡◌, refl, sym, ap, ◌∙◌, Option, none, some, List, [],
  ◌∷◌, arith, drop, get_elem?, ◌==◌, ==_iff, subst, Bool, true, false, if◌then◌else◌,
}
use fomos.Memory.{BootInfoFrameAllocator, allocate_frame}
use fomos.Memory.Frames.{remaining, allocate_frame_step, get_elem?-head, get_elem?-tail}
use fomos.Memory.Paging.{
  Mapper, Outcome, ok, panic, ◌>>=◌, >>=-eq-ok, unwrap, mapped_or_error, check_contiguous,
  map_pages, create_identity_virt_from_phys_n,
}

get_elem?-drop : {A : Type 0} (n : ℕ) (xs : List A) → get_elem? (drop n xs) 0 ≡ get_elem? xs n
get_elem?-drop zero [] = refl
get_elem?-drop zero (x ∷ xs) = refl
get_elem?-drop (suc n) [] = refl
get_elem?-drop (suc n) (x ∷ xs) = get_elem?-drop n xs

drop-suc : {A : Type 0} (n : ℕ) (xs ys : List A) (y : A) → drop n xs ≡ y ∷ ys → drop (suc n) xs ≡ ys
drop-suc zero [] ys y e = cc
drop-suc zero (x ∷ xs) ys y e = cc
drop-suc (suc n) [] ys y e = cc
drop-suc (suc n) (x ∷ xs) ys y e = drop-suc n xs ys y e

module _ (mapper : Mapper) (containing_address page_of : ℕ → ℕ) where
  open mapper use {Table, mapped, map_to-mapped}

  -- The pair of the page and the frame at the i-th address from `first` on.
  abbrev pub pair : ℕ → ℕ → ℕ × ℕ
  pair first i = (page_of (first + i * 4096), containing_address (first + i * 4096))

  -- The table has these `n` pairs more, the last of them first, before what it had.
  pub record Added (first i n : ℕ) (before after : List (ℕ × ℕ)) : Type 0 where
    pub pairs : (j : ℕ) → j < n → get_elem? after (n - 1 - j) ≡ some (pair first (i + j))
    pub others : drop n after ≡ before

  Added-cons :
      (first i n : ℕ) (before after : List (ℕ × ℕ))
      → Added first (i + 1) n (pair first i ∷ before) after
      → Added first i (suc n) before after
  Added-cons first i n before after added = record {
    pairs = pairs';
    others = drop-suc n after before (pair first i) added.others;
  }
    where
      pairs' : (j : ℕ) → j < suc n → get_elem? after (suc n - 1 - j) ≡ some (pair first (i + j))
      pairs' zero h =
          ap (get_elem? after) (omega arith)
          ∙ sym (get_elem?-drop n after)
          ∙ ap (λ l. get_elem? l 0) added.others
          ∙ ap (λ k. some (pair first k)) (omega arith)
      pairs' (suc j) h =
          ap (get_elem? after) (omega arith)
          ∙ added.pairs j (omega arith)
          ∙ ap (λ k. some (pair first k)) (omega arith)

  map_pages-Added :
      (first i n : ℕ) (t t' : Table) (a a' : BootInfoFrameAllocator)
      → map_pages mapper containing_address page_of first i n (t, a) ≡ ok (t', a')
      → Added first i n (mapped t) (mapped t')
  unfolding map_pages mapped_or_error
  map_pages-Added first i zero t t' a a' e = record {
    pairs = λ j h. absurd (omega arith);
    others = cc;
  }
  map_pages-Added first i (suc n) t t' a a' e =
      go (λ u b. map_pages-Added first (i + 1) n u t' b a')
        (mapper.map_to (page_of (first + i * 4096)) (containing_address (first + i * 4096)) t a)
        refl e
    where
      addr : ℕ
      addr = first + i * 4096

      go :
          ((u : Table) (b : BootInfoFrameAllocator)
            → map_pages mapper containing_address page_of first (i + 1) n (u, b) ≡ ok (t', a')
            → Added first (i + 1) n (mapped u) (mapped t'))
          → (r : Option Table × BootInfoFrameAllocator)
          → mapper.map_to (page_of addr) (containing_address addr) t a ≡ r
          → (mapped_or_error mapper r
              >>= map_pages mapper containing_address page_of first (i + 1) n)
            ≡ ok (t', a')
          → Added first i (suc n) (mapped t) (mapped t')
      go rec (none, b) q e = cc
      go rec (some u, b) q e = Added-cons first i n (mapped t) (mapped t') (
          subst (λ l. Added first (i + 1) n l (mapped t'))
            (map_to-mapped (page_of addr) (containing_address addr) t u a (ap (λ r. r.0) q))
            (rec u b e))

  unwrap-ok :
      (r : Option ℕ × BootInfoFrameAllocator) (frame : ℕ) (a : BootInfoFrameAllocator)
      → unwrap r ≡ ok (frame, a)
      → (r.0 ≡ some frame) × (r.1 ≡ a)
  unfolding unwrap
  unwrap-ok (none, b) frame a e = (cc, cc)
  unwrap-ok (some f, b) frame a e = (cc, cc)

  -- The frames that the check has taken, and what the allocator had.
  check_contiguous-ok :
      (n first i : ℕ) (a a' : BootInfoFrameAllocator)
      → 1 ≤ a.next
      → a.next + 32 * n < 2 ^ 64
      → check_contiguous mapper containing_address page_of first i n a ≡ ok a'
      → (j : ℕ) → j < n
      → get_elem? (remaining containing_address a) j ≡ some (first + (i + j) * 4096)
  unfolding check_contiguous
  check_contiguous-ok zero first i a a' lo hi e j h = absurd (omega arith)
  check_contiguous-ok (suc n) first i a a' lo hi e j h =
      let (frame_is, rest_is, _, lo', hi') =
        allocate_frame_step containing_address a lo (omega arith) in
      let ((frame, a1), taken, rest) =
        >>=-eq-ok (unwrap (allocate_frame containing_address a)) _ e in
      let (is_frame, is_a1) = unwrap-ok (allocate_frame containing_address a) frame a1 taken in
      let (follows, checked) = if_ok (first + i * 4096 == frame) _ a' rest in
      at j h
        (get_elem?-head containing_address (remaining containing_address a)
          ∙ sym frame_is
          ∙ is_frame
          ∙ ap some (sym ((==_iff (first + i * 4096) frame).0 follows)))
        (λ k hk.
          sym (get_elem?-tail containing_address (remaining containing_address a) k)
          ∙ ap (λ l. get_elem? l k) (sym rest_is ∙ ap (remaining containing_address) is_a1)
          ∙ check_contiguous-ok n first (i + 1) a1 a' (omega (arith, ap (λ b. b.next) is_a1))
              (omega (arith, ap (λ b. b.next) is_a1)) checked k hk)
    where
      if_ok :
          (b : Bool) (m : Outcome BootInfoFrameAllocator) (x : BootInfoFrameAllocator)
          → (if b then m else panic) ≡ ok x
          → (b ≡ true) × (m ≡ ok x)
      if_ok true m x e = (refl, e)
      if_ok false m x e = (cc, cc)

      at :
          (j : ℕ)
          → j < suc n
          → get_elem? (remaining containing_address a) 0 ≡ some (first + i * 4096)
          → ((k : ℕ)
              → k < n
              → get_elem? (remaining containing_address a) (suc k)
                ≡ some (first + (i + 1 + k) * 4096))
          → get_elem? (remaining containing_address a) j ≡ some (first + (i + j) * 4096)
      at zero h first_is later = first_is ∙ ap (λ k. some (first + k * 4096)) (omega arith)
      at (suc k) h first_is later =
          later k (omega arith) ∙ ap (λ m. some (first + m * 4096)) (omega arith)

  -- The first frame follows on itself.
  from_first :
      (n first : ℕ) (a a1 a2 : BootInfoFrameAllocator)
      → unwrap (allocate_frame containing_address a) ≡ ok (first, a1)
      → check_contiguous mapper containing_address page_of first 1 (suc n - 1) a1 ≡ ok a2
      → check_contiguous mapper containing_address page_of first 0 (suc n) a ≡ ok a2
  unfolding check_contiguous
  from_first n first a a1 a2 taken checked =
      rw (taken, (==_iff (first + 0 * 4096) first).1 (omega arith))
        (subst Rest (omega arith) checked)
    where
      Rest : ℕ → Type 0
      Rest k = check_contiguous mapper containing_address page_of first (0 + 1) k a1 ≡ ok a2

  -- A buffer of `pages` pages, as it comes out: it begins at a frame `first`, its frames are the
  -- next `pages` frames of the allocator and follow one another, and each page is mapped onto the
  -- frame of its own address, over what was mapped before.
  pub record Buffer (pages page : ℕ) (t t' : Table) (a : BootInfoFrameAllocator) : Type 0 where
    pub first : ℕ
    pub starts : page ≡ page_of first
    pub frames :
        (j : ℕ) → j < pages → get_elem? (remaining containing_address a) j ≡ some (first + j * 4096)
    pub added : Added first 0 pages (mapped t) (mapped t')

  -- If `create_identity_virt_from_phys_n` returns a page, the buffer is as `Buffer` describes.
  pub create_n-Buffer :
      (pages page : ℕ) (t t' : Table) (a a' : BootInfoFrameAllocator)
      → 1 ≤ pages
      → 1 ≤ a.next
      → a.next + 32 * pages < 2 ^ 64
      → create_identity_virt_from_phys_n mapper containing_address page_of pages (t, a)
        ≡ ok (page, (t', a'))
      → Buffer pages page t t' a
  unfolding create_identity_virt_from_phys_n
  create_n-Buffer zero page t t' a a' some_pages lo hi e = absurd (omega arith)
  create_n-Buffer (suc n) page t t' a a' some_pages lo hi e =
      let ((first, a1), taken, e1) = >>=-eq-ok (unwrap (allocate_frame containing_address a)) _ e in
      let (a2, checked, e2) =
        >>=-eq-ok (check_contiguous mapper containing_address page_of first 1 (suc n - 1) a1) _
          e1 in
      let ((t3, a3), added, e3) =
        >>=-eq-ok (map_pages mapper containing_address page_of first 0 (suc n) (t, a2)) _ e2 in
      record {
        first = first;
        starts = ground (arith, e3);
        frames = λ j h.
            check_contiguous-ok (suc n) first 0 a a2 lo hi
              (from_first n first a a1 a2 taken checked) j h
            ∙ ap (λ k. some (first + k * 4096)) (omega arith);
        added =
            subst (λ u. Added first 0 (suc n) (mapped t) (mapped u)) (ground (arith, e3))
              (map_pages-Added first 0 (suc n) t t3 a2 a3 added);
      }
