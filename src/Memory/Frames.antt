-- ===== src/Memory/Frames.antt =====
-- The buffer of the frame allocator does not show: it hands out the usable frames in order.
use mathlib.Core.List.{reverse, reverse-cons, reverse-reverse}
use fomos.Common.{
  ℕ, zero, suc, ◌+◌, ◌-◌, ◌*◌, ◌%◌, ◌^◌, ◌≤◌, ◌<◌, ◌≡◌, refl, sym, ap, ap₂, ◌∙◌, Option, none, some,
  List, [], ◌∷◌, ◌++◌, arith, length, take, drop, get_elem?, take-append-drop, drop-drop,
  append_assoc, append-nil, Bool-cases, inl, inr, ◌==◌, ==_iff,
}
use fomos.Memory.{
  BootInfoFrameAllocator, MemoryRegion, init, push_all, pop, usable_frames, refill, allocate_frame,
  after,
}

push_all-eq : (buf frames : List ℕ) → push_all buf frames ≡ reverse frames ++ buf
unfolding push_all
push_all-eq buf [] = refl
push_all-eq buf (f ∷ fs) =
    push_all-eq (f ∷ buf) fs
    ∙ sym (append_assoc (reverse fs) (f ∷ []) buf)
    ∙ ap (λ l. l ++ buf) (sym (reverse-cons f fs))

module _ (containing_address : ℕ → ℕ) where
  -- The frames that the allocator has not handed out: the buffer, then those that it will read.
  abbrev pub remaining : BootInfoFrameAllocator → List ℕ
  remaining a = a.buf ++ drop (a.next - 1) (usable_frames containing_address a.memory_map)

  abbrev pub head? : List ℕ → Option ℕ
  head? [] = none
  head? (x ∷ xs) = some x

  abbrev pub tail : List ℕ → List ℕ
  tail [] = []
  tail (x ∷ xs) = xs

  abbrev rest : BootInfoFrameAllocator → List ℕ
  rest a = drop (a.next - 1) (usable_frames containing_address a.memory_map)

  take-eq-nil : (n : ℕ) (xs : List ℕ) → take (suc n) xs ≡ [] → xs ≡ []
  take-eq-nil n [] e = refl
  take-eq-nil n (x ∷ xs) e = cc

  -- A refill of the empty buffer moves frames into it, and leaves it empty only if none is left.
  buf-refill :
      (a : BootInfoFrameAllocator)
      → a.buf ≡ []
      → (refill containing_address a).buf ≡ take 32 (rest a)
  unfolding refill
  buf-refill a e =
      let ahead = take 32 (rest a) in
      ap reverse (ap (λ b. push_all b ahead) e ∙ push_all-eq [] ahead ∙ append-nil (reverse ahead))
      ∙ reverse-reverse ahead

  rest-refill :
      (a : BootInfoFrameAllocator)
      → 1 ≤ a.next
      → a.next + 32 < 2 ^ 64
      → rest (refill containing_address a) ≡ drop 32 (rest a)
  unfolding refill
  rest-refill a h k =
      let frames = usable_frames containing_address a.memory_map in
      ap (λ n. drop n frames) (omega arith) ∙ sym (drop-drop 32 (a.next - 1) frames)

  pop_step :
      (a : BootInfoFrameAllocator) (buf : List ℕ)
      → a.buf ≡ buf
      → (buf ≡ [] → rest a ≡ [])
      → let (frame, a') = pop a buf in
        (frame ≡ head? (buf ++ rest a))
        × (remaining a' ≡ tail (buf ++ rest a))
        × (a'.memory_map ≡ a.memory_map)
        × (a'.next ≡ a.next)
  unfolding pop
  pop_step a [] e h =
      let none_left = h refl in
      (rw none_left refl, ap₂ ◌++◌ e none_left ∙ sym (ap tail none_left), refl, refl)
  pop_step a (x ∷ xs) e h = (refl, refl, refl, refl)

  -- A call hands out the first of the frames that remain, `None` if there is none.
  pub allocate_frame_step :
      (a : BootInfoFrameAllocator)
      → 1 ≤ a.next
      → a.next + 32 < 2 ^ 64
      → let (frame, a') = allocate_frame containing_address a in
        (frame ≡ head? (remaining a))
        × (remaining a' ≡ tail (remaining a))
        × (a'.memory_map ≡ a.memory_map)
        × (1 ≤ a'.next)
        × (a'.next ≤ a.next + 32)
  unfolding allocate_frame
  allocate_frame_step a h k = elim (Bool-cases (length a.buf == 0)) [
    | inl empty ↦
        let no_buf : a.buf ≡ [] = length-zero a.buf ((==_iff (length a.buf) 0).0 empty) in
        let a1 = refill containing_address a in
        let filled = buf-refill a no_buf in
        let after = rest-refill a h k in
        let same : remaining a1 ≡ remaining a =
          ap₂ ◌++◌ filled after
          ∙ take-append-drop 32 (rest a)
          ∙ ap (λ b. b ++ rest a) (sym no_buf) in
        let (p, q, r, s) =
          pop_step a1 a1.buf refl
            (λ e. after ∙ ap (drop 32) (take-eq-nil 31 (rest a) (sym filled ∙ e))) in
        rw empty (
          p ∙ ap head? same,
          q ∙ ap tail same,
          r,
          omega (arith, s, next-refill a),
          omega (arith, s, next-refill a),
        )
    | inr some_left ↦
        let (p, q, r, s) = pop_step a a.buf refl (λ e. cc (some_left, ap (λ b. length b == 0) e)) in
        rw some_left (p, q, r, omega (arith, s), omega (arith, s))
  ]
    where
      length-zero : (xs : List ℕ) → length xs ≡ 0 → xs ≡ []
      length-zero [] e = refl
      length-zero (x ∷ xs) e = absurd (omega arith)

      next-refill :
          (a : BootInfoFrameAllocator) → (refill containing_address a).next ≡ (a.next + 32) % 2 ^ 64
      next-refill a = refl

  pub get_elem?-head : (xs : List ℕ) → get_elem? xs 0 ≡ head? xs
  get_elem?-head [] = refl
  get_elem?-head (x ∷ xs) = refl

  pub get_elem?-tail : (xs : List ℕ) (n : ℕ) → get_elem? (tail xs) n ≡ get_elem? xs (suc n)
  get_elem?-tail [] n = refl
  get_elem?-tail (x ∷ xs) n = refl

  after_frame :
      (n : ℕ) (a : BootInfoFrameAllocator)
      → 1 ≤ a.next
      → a.next + 32 * suc n < 2 ^ 64
      → (allocate_frame containing_address (after containing_address n a)).0
        ≡ get_elem? (remaining a) n
  unfolding after
  after_frame zero a h k =
      (allocate_frame_step a h (omega arith)).0 ∙ sym (get_elem?-head (remaining a))
  after_frame (suc n) a h k =
      let (_, q, _, lo, hi) = allocate_frame_step a h (omega arith) in
      after_frame n _ lo (omega arith) ∙ ap (λ l. get_elem? l n) q ∙ get_elem?-tail (remaining a) n

  -- After `init` and `n` calls of `allocate_frame`, the next call returns the frame at place `n` of
  -- `usable_frames`, and `None` if there is none, as long as `next` does not wrap.
  pub allocate_frame_nth :
      (memory_map : List MemoryRegion) (n : ℕ)
      → 1 + 32 * suc n < 2 ^ 64
      → (allocate_frame containing_address (after containing_address n (init memory_map))).0
        ≡ get_elem? (usable_frames containing_address memory_map) n
  unfolding init
  allocate_frame_nth memory_map n h = after_frame n (init memory_map) (omega arith) h
