-- ===== src/Globals/History.antt =====
-- The ring of input events, from the driver that writes it to the app that reads it
-- (app_console/src/main.rs, the loop `'new_inputs`).
use fomos.Common.{
  ℕ, zero, suc, ◌+◌, ◌-◌, ◌%◌, ◌^◌, ◌≤◌, ◌<◌, ◌≡◌, refl, ap, ap₂, ◌∙◌, Option, some, List, [], ◌∷◌,
  arith, length, get_elem?, set, get_elem?-some, length-set, get_elem?-set_self, get_elem?-set_ne,
  ◌>>=◌, >>=-eq-some,
}
use native.Mathlib.Nat.{mod-eq_of_lt}
use mathlib.Core.Option.{some-injective}
use fomos.Globals.{Input, InputEvent, handle_incoming_state, handle_all, history_size}
use fomos.Globals.Valid.{IsValid}

-- `n` entries of the ring, from index `i` on.
read_ring : List InputEvent → ℕ → ℕ → Option (List InputEvent)
read_ring ring i zero = some []
read_ring ring i (suc n) = do
  e ← get_elem? ring (i % history_size)
  es ← read_ring ring (i + 1) n
  some (e ∷ es)

-- `for i in (last + 1)..=history_last_index`, where `last` is what the app saw the last time.
pub new_inputs : ℕ → Input → Option (List InputEvent)
new_inputs last input =
    let first = (last + 1) % 2 ^ 64 in
    read_ring input.history_ring first (input.history_last_index + 1 - first)

read_ring-total :
    (n i : ℕ) (ring : List InputEvent)
    → length ring ≡ history_size
    → (es : List InputEvent) × (read_ring ring i n ≡ some es)
unfolding read_ring
read_ring-total zero i ring h = ([], refl)
read_ring-total (suc n) i ring h =
    let (e, found) = get_elem?-some ring (i % history_size) (omega arith) in
    let (es, rest) = read_ring-total n (i + 1) ring h in (e ∷ es, rw (found, rest) refl)

-- The ring is read without a panic, however long the app was away.
pub new_inputs-total :
    (last : ℕ) (input : Input)
    → IsValid input
    → (es : List InputEvent) × (new_inputs last input ≡ some es)
unfolding new_inputs
new_inputs-total last input v = read_ring-total _ _ input.history_ring v.ring_length

write_ring : List InputEvent → ℕ → List InputEvent → List InputEvent
write_ring ring i [] = ring
write_ring ring i (e ∷ es) = write_ring (set ring (i % history_size) e) (i + 1) es

-- Entries written fewer than 64 places further on leave an entry alone.
write_ring_ne :
    (es : List InputEvent) (ring : List InputEvent) (i d : ℕ)
    → 1 ≤ d
    → d + length es ≤ 64
    → get_elem? (write_ring ring (i + d) es) (i % history_size) ≡ get_elem? ring (i % history_size)
unfolding write_ring
write_ring_ne [] ring i d h k = refl
write_ring_ne (e ∷ es) ring i d h k =
    ap (λ (n : ℕ). get_elem? (write_ring (set ring ((i + d) % 64) e) n es) (i % 64)) (omega arith)
    ∙ write_ring_ne es (set ring ((i + d) % 64) e) i (d + 1) (omega arith) (omega arith)
    ∙ get_elem?-set_ne ring e (omega arith)

read-write_ring :
    (es : List InputEvent) (ring : List InputEvent) (i : ℕ)
    → length ring ≡ history_size
    → length es ≤ 64
    → read_ring (write_ring ring i es) i (length es) ≡ some es
unfolding read_ring write_ring
read-write_ring [] ring i v h = refl
read-write_ring (e ∷ es) ring i v h =
    let ring' = set ring (i % history_size) e in
    rw (
      write_ring_ne es ring' i 1 (omega arith) (omega arith),
      get_elem?-set_self ring (i % history_size) e (omega arith),
      read-write_ring es ring' (i + 1) (length-set ring _ e ∙ v) (omega arith),
    )

handle_ring :
    (input input' : Input) (e : InputEvent)
    → input.history_last_index + 1 < 2 ^ 64
    → handle_incoming_state input e.key e.trigger ≡ some input'
    → (input'.history_ring
        ≡ set input.history_ring ((input.history_last_index + 1) % history_size) e)
      × (input'.history_last_index ≡ input.history_last_index + 1)
unfolding handle_incoming_state
handle_ring input input' e h k =
    let (state, found, done) = >>=-eq-some (get_elem? input.keys e.key) _ k in
    ground (arith, some-injective done)

handle_all_ring :
    (es : List InputEvent) (input input' : Input)
    → input.history_last_index + length es < 2 ^ 64
    → handle_all input es ≡ some input'
    → (input'.history_ring ≡ write_ring input.history_ring (input.history_last_index + 1) es)
      × (input'.history_last_index ≡ input.history_last_index + length es)
unfolding handle_all write_ring
handle_all_ring [] input input' h k = (ground arith, ground arith)
handle_all_ring (e ∷ es) input input' h k =
    let (mid, first, rest) = >>=-eq-some (handle_incoming_state input e.key e.trigger) _ k in
    let (ring, last) = handle_ring input mid e (omega arith) first in
    let (ring', last') = handle_all_ring es mid input' (omega arith) rest in
    (ring' ∙ ap₂ (λ r n. write_ring r n es) ring (ap (λ n. n + 1) last), omega arith)

-- An app that comes back after at most 64 events reads exactly those events, in order: from the
-- index that it saw before them, when the driver has taken them all and the index has not wrapped.
pub new_inputs-handle_all :
    (input input' : Input) (es : List InputEvent)
    → IsValid input
    → length es ≤ history_size
    → input.history_last_index + length es + 1 < 2 ^ 64
    → handle_all input es ≡ some input'
    → new_inputs input.history_last_index input' ≡ some es
unfolding new_inputs
new_inputs-handle_all input input' es v few small run =
    let (ring, last) = handle_all_ring es input input' (omega arith) run in
    let first = input.history_last_index + 1 in
    ap₃ ring (mod-eq_of_lt {n = first} (omega arith))
      (omega (arith, mod-eq_of_lt {n = first} {m = 2 ^ 64} (omega arith)))
    ∙ read-write_ring es input.history_ring first v.ring_length few
  where
    ap₃ :
        {r r' : List InputEvent} {i i' n n' : ℕ}
        → r ≡ r'
        → i ≡ i'
        → n ≡ n'
        → read_ring r i n ≡ read_ring r' i' n'
    ap₃ p q s = λ j. read_ring (p j) (q j) (s j)

pub last-handle_all :
    (es : List InputEvent) (input input' : Input)
    → input.history_last_index + length es < 2 ^ 64
    → handle_all input es ≡ some input'
    → input'.history_last_index ≡ input.history_last_index + length es
last-handle_all es input input' h k = (handle_all_ring es input input' h k).1
