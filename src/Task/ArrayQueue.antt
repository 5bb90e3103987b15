-- ===== src/Task/ArrayQueue.antt =====
-- The bounded queue `ArrayQueue` of the crate crossbeam, as documented: first in, first out, and an
-- error when it is full.
use fomos.Common.{ℕ, ◌≤◌, ◌<◌, ◌≡◌, Option, none, some, List, [], ◌∷◌, ◌++◌, length}

-- `none` is the error of `push` and the `None` of `pop`.
pub record ArrayQueue (A : Type 0) : Type 1 where
  pub Queue : Type 0
  pub push : Queue → A → Option Queue
  pub pop : Queue → Option (A × Queue)
  pub contents : Queue → List A
  pub capacity : Queue → ℕ
  pub push-some :
      (q : Queue) (a : A)
      → length (contents q) < capacity q
      → (q' : Queue) × (push q a ≡ some q')
        × (contents q' ≡ contents q ++ (a ∷ []))
        × (capacity q' ≡ capacity q)
  pub push-none : (q : Queue) (a : A) → capacity q ≤ length (contents q) → push q a ≡ none
  pub pop-none : (q : Queue) → contents q ≡ [] → pop q ≡ none
  pub pop-some :
      (q : Queue) (a : A) (rest : List A)
      → contents q ≡ a ∷ rest
      → (q' : Queue) × (pop q ≡ some (a, q')) × (contents q' ≡ rest) × (capacity q' ≡ capacity q)
