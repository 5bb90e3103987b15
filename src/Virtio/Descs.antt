-- ===== src/Virtio/Descs.antt =====
-- Who holds which descriptor: the free list of a queue and the requests in flight.
use fomos.Common.{ℕ, zero, suc, ◌+◌, ◌≡◌, ◌∙◌, some, List, [], ◌∷◌, arith, ◌==◌, ltb, if◌then◌else◌}
use fomos.Virtio.{count_up, new_free, get_free, get_free_twice, set_free}

-- How often a descriptor stands in a list.
abbrev pub count : ℕ → List ℕ → ℕ
count a [] = 0
count a (x ∷ xs) = (if x == a then 1 else 0) + count a xs

-- One call on the free list. What is handed out is held until it is set free.
pub data Step (free held : List ℕ) : List ℕ → List ℕ → Type 0 where
  take :
      {free' : List ℕ} (i : ℕ) → get_free free ≡ (some i, free') → Step free held free' (i ∷ held)
  take_twice :
      {free' : List ℕ} (i j : ℕ)
      → get_free_twice free ≡ (some (i, j), free')
      → Step free held free' (i ∷ (j ∷ held))
  give_back :
      {held' : List ℕ} (i : ℕ)
      → ((a : ℕ) → count a held ≡ count a (i ∷ held'))
      → Step free held (set_free free i) held'

-- What a queue of `size` descriptors may come to.
pub data Reach (size : ℕ) : List ℕ → List ℕ → Type 0 where
  start : Reach size (new_free size) []
  next :
      {free held free' held' : List ℕ}
      → Reach size free held
      → Step free held free' held'
      → Reach size free' held'

count-count_up :
    (a n i : ℕ) (free : List ℕ)
    → count a (count_up n i free)
      ≡ (if ltb a i then 0 else if ltb a (i + n) then 1 else 0) + count a free
unfolding count_up
count-count_up a zero i free = ground arith
count-count_up a (suc n) i free = ground (arith, count-count_up a n (i + 1) (i ∷ free))

count-new_free : (a size : ℕ) → count a (new_free size) ≡ (if ltb a size then 1 else 0)
unfolding new_free
count-new_free a size = ground (arith, count-count_up a size 0 [])

step_count :
    {free held free' held' : List ℕ} (a : ℕ)
    → Step free held free' held'
    → count a free' + count a held' ≡ count a free + count a held
unfolding get_free get_free_twice set_free
step_count {free = []} a (take i e) = cc
step_count {free = x ∷ xs} a (take i e) = ground arith
step_count {free = []} a (take_twice i j e) = cc
step_count {free = x ∷ []} a (take_twice i j e) = cc
step_count {free = x ∷ (y ∷ xs)} a (take_twice i j e) = ground arith
step_count a (give_back i e) = omega (arith, e a)

-- Every descriptor of the queue is at all times either free or held, once, and no other is.
pub Reach-count :
    (size a : ℕ) {free held : List ℕ}
    → Reach size free held
    → count a free + count a held ≡ (if ltb a size then 1 else 0)
Reach-count size a start = omega (arith, count-new_free a size)
Reach-count size a (next r s) = step_count a s ∙ Reach-count size a r
