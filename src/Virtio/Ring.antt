-- ===== src/Virtio/Ring.antt =====
-- The rings of a virtqueue: entries lie from an index on, going round at the size of the queue.
use native.Mathlib.Nat.{mod-eq_of_lt, mod-eq-sub-mod, mod-add-mod, mod-lt}
use native.Mathlib.Decide.{dec_lt}
use fomos.Common.{
  ℕ, suc, ◌+◌, ◌-◌, ◌%◌, ◌≤◌, ◌<◌, ◌≡◌, sym, ap, subst, ◌∙◌, ◌≢◌, some, List, [], ◌∷◌, ◌++◌, arith,
  length, get_elem?, set, get_elem?-set_self, get_elem?-set_ne,
}

-- Fewer than `size` steps round a ring do not come back to the start.
mod-ne_later : (size i k : ℕ) → 0 < k → k < size → (i + k) % size ≢ i % size
mod-ne_later size i k hk h = elim (dec_lt (i % size + k) size) [
  | yes p ↦ omega (arith, mod-add-mod i size k, mod-eq_of_lt p)
  | no p ↦ omega (
    arith,
    mod-add-mod i size k,
    mod-lt i {m = size} (omega arith),
    mod-eq-sub-mod {n = i % size + k} {m = size} (omega arith),
    mod-eq_of_lt {n = i % size + k - size} {m = size}
        (omega (arith, mod-lt i {m = size} (omega arith))),
  )
]

module _ {A : Type 0} (size : ℕ) where
  -- The ring holds the entries `xs` from index `i` on.
  abbrev pub Holds : List A → ℕ → List A → Type 0
  Holds ring i [] = Unit {0}
  Holds ring i (x ∷ xs) = (get_elem? ring (i % size) ≡ some x) × Holds ring (i + 1) xs

  pub Holds-mod :
      (ring xs : List A) (i j : ℕ) → i % size ≡ j % size → Holds ring i xs → Holds ring j xs
  Holds-mod ring [] i j e h = tt
  Holds-mod ring (x ∷ xs) i j e h =
      (ap (get_elem? ring) (sym e) ∙ h.0, Holds-mod ring xs (i + 1) (j + 1) next h.1)
    where
      next : (i + 1) % size ≡ (j + 1) % size
      next = sym (mod-add-mod i size 1) ∙ ap (λ n. (n + 1) % size) e ∙ mod-add-mod j size 1

  -- The entry written just past them joins them.
  pub Holds-append :
      (ring xs : List A) (i : ℕ) (a : A)
      → size ≤ length ring
      → length xs < size
      → Holds ring i xs
      → Holds (set ring ((i + length xs) % size) a) i (xs ++ (a ∷ []))
  Holds-append ring [] i a fits lt h = (
    ap (λ n. get_elem? (set ring (n % size) a) (i % size)) (plus_zero i)
        ∙ get_elem?-set_self ring (i % size) a (omega (arith, mod-lt i {m = size} lt)),
    tt,
  )
    where
      plus_zero : (i : ℕ) → i + 0 ≡ i
      plus_zero i = omega arith
  Holds-append ring (x ∷ xs) i a fits lt h = (
    get_elem?-set_ne ring a (mod-ne_later size i (suc (length xs)) (omega arith) lt) ∙ h.0,
    subst (λ n. Holds (set ring (n % size) a) (i + 1) (xs ++ (a ∷ []))) (shift i (length xs))
        (Holds-append ring xs (i + 1) a fits (omega arith) h.1),
  )
    where
      shift : (i n : ℕ) → i + 1 + n ≡ i + suc n
      shift i n = omega arith
