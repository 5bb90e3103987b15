-- ===== src/Virtio/Used.antt =====
-- The used ring, from the device that fills it to the driver that empties it, and the available
-- ring, which goes the other way.
use native.Mathlib.Nat.{mod-mod_of_dvd, mod-add-mod}
use fomos.Common.{
  ℕ, zero, suc, ◌+◌, ◌%◌, ◌^◌, ◌≤◌, ◌<◌, ◌∣◌, ◌≡◌, refl, sym, ap, subst, ◌∙◌, Option, none, some,
  List, foldl, [], ◌∷◌, ◌++◌, arith, length, All, set, length-set, length-append, ==_refl, ==_ne,
  ◌>>=◌,
}
use fomos.Virtio.{Virtqueue, UsedElem, next_used}
use fomos.Virtio.Ring.{Holds, Holds-mod, Holds-append}

-- What the device does when it is done with a chain, as the virtio specification has it: it writes
-- the entry at its index and moves the index on.
pub data DeviceUses (elem : UsedElem) (q q' : Virtqueue) : Type 0 where
  uses :
      q' ≡ record q {
        device_ring = set q.device_ring (q.device_idx % q.queue_size) elem;
        device_idx = (q.device_idx + 1) % 2 ^ 16;
      }
      → DeviceUses elem q q'

-- The shape of the queue. By the virtio specification its size is a power of two up to 32768.
pub record IsSized (n : ℕ) (q : Virtqueue) : Type 0 where
  pub size : q.queue_size ≡ n
  pub descs_fit : q.queue_size ≤ length q.descs
  pub positive : 0 < q.queue_size
  pub small : q.queue_size ≤ 2 ^ 15
  pub divides : q.queue_size ∣ 2 ^ 16
  pub used_fits : q.queue_size ≤ length q.device_ring
  pub available_fits : q.queue_size ≤ length q.driver_ring

-- The entries that the device has written and the driver has not read yet, oldest first.
pub record Pending (n : ℕ) (q : Virtqueue) (xs : List UsedElem) : Type 0 where
  pub sized : IsSized n q
  pub few : length xs ≤ q.queue_size
  pub index : q.device_idx ≡ (q.last_used_idx + 1 + length xs) % 2 ^ 16
  pub entries : Holds q.queue_size q.device_ring (q.last_used_idx + 1) xs

next_mod : (size i : ℕ) → size ∣ 2 ^ 16 → (i + 1) % size ≡ (i % 2 ^ 16 + 1) % size
next_mod size i h =
    sym (mod-add-mod i size 1)
    ∙ ap (λ n. (n + 1) % size) (sym (mod-mod_of_dvd size i h))
    ∙ mod-add-mod (i % 2 ^ 16) size 1

-- With nothing pending `next_used` is `None` and changes nothing.
pub next_used_nil : (n : ℕ) (q : Virtqueue) → Pending n q [] → next_used q ≡ some (none, q)
unfolding next_used
next_used_nil n q p = rw (empty, ==_refl q.device_idx)
  where
    empty : (q.last_used_idx + 1) % 2 ^ 16 ≡ q.device_idx
    empty = omega arith

-- With entries pending `next_used` returns the oldest of them, and what is pending then is the rest.
pub next_used_cons :
    (n : ℕ) (q : Virtqueue) (x : UsedElem) (xs : List UsedElem)
    → Pending n q (x ∷ xs)
    → (q' : Virtqueue) × (next_used q ≡ some (some x, q')) × Pending n q' xs
unfolding next_used
next_used_cons n q x xs p =
    let next = (q.last_used_idx + 1) % 2 ^ 16 in
    (
      record q { last_used_idx = next },
      rw (
        ==_ne next q.device_idx (omega arith),
        mod-mod_of_dvd q.queue_size (q.last_used_idx + 1) p.sized.divides,
        p.entries.0,
      ),
      record {
        sized = record {
          size = p.sized.size;
          descs_fit = p.sized.descs_fit;
          positive = p.sized.positive;
          small = p.sized.small;
          divides = p.sized.divides;
          used_fits = p.sized.used_fits;
          available_fits = p.sized.available_fits;
        };
        few = omega arith;
        index = omega arith;
        entries =
            Holds-mod q.queue_size q.device_ring xs (q.last_used_idx + 1 + 1) (next + 1)
              (next_mod q.queue_size (q.last_used_idx + 1) p.sized.divides) p.entries.1;
      },
    )

-- An entry that the device adds is pending after the others, if the ring has room.
pub DeviceUses-Pending :
    (n : ℕ) (q q' : Virtqueue) (x : UsedElem) (xs : List UsedElem)
    → Pending n q xs
    → length xs < q.queue_size
    → DeviceUses x q q'
    → Pending n q' (xs ++ (x ∷ []))
DeviceUses-Pending n q q' x xs p room (uses e) =
    subst (λ r. Pending n r (xs ++ (x ∷ []))) (sym e)
      (record {
        sized = record {
          size = p.sized.size;
          descs_fit = p.sized.descs_fit;
          positive = p.sized.positive;
          small = p.sized.small;
          divides = p.sized.divides;
          used_fits = omega (arith, length-set q.device_ring (q.device_idx % q.queue_size) x);
          available_fits = p.sized.available_fits;
        };
        few = omega (arith, length-append xs (x ∷ []));
        index = omega (arith, length-append xs (x ∷ []));
        entries =
            subst
              (λ i.
                Holds q.queue_size (set q.device_ring i x) (q.last_used_idx + 1) (xs ++ (x ∷ [])))
              place
              (Holds-append q.queue_size q.device_ring xs (q.last_used_idx + 1) x p.sized.used_fits
                room p.entries);
      })
  where
    place : (q.last_used_idx + 1 + length xs) % q.queue_size ≡ q.device_idx % q.queue_size
    place =
        sym (mod-mod_of_dvd q.queue_size (q.last_used_idx + 1 + length xs) p.sized.divides)
        ∙ ap (λ n. n % q.queue_size) (sym p.index)

module _ {S : Type 0} (body : UsedElem → Virtqueue → S → Option (Virtqueue × S)) where
  -- `while let Some(used) = virtio.next_used() { body }`, for at most `fuel` rounds.
  unfoldable pub while_used : ℕ → Virtqueue → S → Option (Virtqueue × S)
  while_used zero q s = none
  while_used (suc fuel) q s = next_used q >>= λ (used, q'). elim used [
    | none ↦ some (q', s)
    | some x ↦ body x q' s >>= λ (q'', s'). while_used fuel q'' s'
  ]

  -- A loop over `next_used` ends after as many rounds as entries are pending, having run its body on
  -- each of them in order, and leaves none pending: if the body, on an entry whose descriptor is one
  -- of the `n` of the queue and on a good state, succeeds with the effect `act`, keeps the state good
  -- and leaves the other entries pending.
  pub while_used_lem :
      (n : ℕ) (act : S → UsedElem → S) (IsGood : S → Type 0)
      → ((x : UsedElem) (xs : List UsedElem) (q : Virtqueue) (s : S)
          → x.id < n
          → IsGood s
          → Pending n q xs
          → (q' : Virtqueue) × (body x q s ≡ some (q', act s x))
            × Pending n q' xs
            × IsGood (act s x))
      → (xs : List UsedElem) (q : Virtqueue) (s : S) (fuel : ℕ) → Pending n q xs
      → IsGood s
      → All (λ x. x.id < n) xs
      → length xs < fuel
      → (q' : Virtqueue) × (while_used fuel q s ≡ some (q', foldl act s xs)) × Pending n q' []
  unfolding while_used
  while_used_lem n act IsGood keep xs q s zero p good known h = absurd (omega arith)
  while_used_lem n act IsGood keep [] q s (suc fuel) p good known h =
      rw (next_used_nil n q p) (q, refl, p)
  while_used_lem n act IsGood keep (x ∷ xs) q s (suc fuel) p good known h =
      let (mid, read, p') = next_used_cons n q x xs p in
      let (mid', done, p'', good') = keep x xs mid s known.0 good p' in
      rw (read, done)
        (while_used_lem n act IsGood keep xs mid' (act s x) fuel p'' good' known.1 (omega arith))
