-- ===== src/Virtio/Tests.antt =====
-- A queue of four descriptors, on concrete requests.
use fomos.Common.{
  ℕ, ◌+◌, ◌^◌, ◌<◌, ◌≡◌, refl, Option, none, some, List, foldl, [], ◌∷◌, arith, replicate, ◌∣◌,
}
use fomos.Virtio.{
  Virtqueue, Desc, UsedElem, new_free, get_free_twice, add_request, set_writable_available,
}
use fomos.Virtio.Descs.{count, start, next, take_twice, Reach-count}
use fomos.Virtio.Used.{IsSized, Pending, while_used, while_used_lem}
use fomos.Virtio.Request.{Offered, Requested, add_request_lem, set_writable_available-Pending}

abbrev pub empty_desc : Desc
empty_desc = record { addr = 0x1000; len = 0; flags = 0; next = 0 }

abbrev pub answered : UsedElem
answered = record { id = 2; len = 24 }

-- The device has used one chain, whose head is descriptor 2.
abbrev pub one_used : Virtqueue
one_used = record {
  queue_size = 4;
  descs = replicate 4 empty_desc;
  driver_idx = 0;
  driver_ring = replicate 4 0;
  device_idx = 1;
  device_ring = answered ∷ replicate 3 (record { id = 0; len = 0 });
  memory = λ a. [];
  last_used_idx = 0xffff;
  free = new_free 4;
}

four_divides : 4 ∣ 2 ^ 16
four_divides = ∣ (16384, refl) ∣₁

one_used-IsSized : IsSized 4 one_used
one_used-IsSized = record {
  size = refl;
  descs_fit = omega arith;
  positive = omega arith;
  small = omega arith;
  divides = four_divides;
  used_fits = omega arith;
  available_fits = omega arith;
}

pub one_used-Pending : Pending 4 one_used (answered ∷ [])
one_used-Pending = record {
  sized = one_used-IsSized;
  few = omega arith;
  index = refl;
  entries = (refl, tt);
}

pub one_used-Offered : Offered 4 one_used 0 []
one_used-Offered = record { sized = one_used-IsSized; index = refl; entries = tt }

add_request_lem_example :
    (q' : Virtqueue) × (add_request one_used 3 2 (1 ∷ 0 ∷ []) ≡ some q')
    × Requested 4 one_used q' 0 [] 3 2 empty_desc empty_desc (1 ∷ 0 ∷ [])
add_request_lem_example =
    add_request_lem 4 one_used 0 [] 3 2 empty_desc empty_desc (1 ∷ 0 ∷ []) one_used-Offered
      (omega arith) (omega arith) (omega arith) (omega arith) refl refl

-- The body of an input driver: count the event, give its descriptor back.
abbrev count_and_return : UsedElem → Virtqueue → ℕ → Option (Virtqueue × ℕ)
count_and_return x q s = elim (set_writable_available q x.id) [
  | none ↦ none
  | some q' ↦ some (q', s + 1)
]

abbrev count_one : ℕ → UsedElem → ℕ
count_one s x = s + 1

count_and_return-keeps :
    (x : UsedElem) (xs : List UsedElem) (q : Virtqueue) (s : ℕ)
    → x.id < 4
    → Unit {0}
    → Pending 4 q xs
    → (q' : Virtqueue) × (count_and_return x q s ≡ some (q', count_one s x))
      × Pending 4 q' xs
      × Unit {0}
count_and_return-keeps x xs q s h good p =
    let (q', e, p') = set_writable_available-Pending 4 q x.id xs h p in
    (q', rw (count_and_return, e) refl, p', tt)

while_used_lem_example :
    (q' : Virtqueue) × (while_used count_and_return 2 one_used 0
      ≡ some (q', foldl count_one 0 (answered ∷ [])))
    × Pending 4 q' []
while_used_lem_example =
    while_used_lem count_and_return 4 count_one (λ s. Unit {0}) count_and_return-keeps
      (answered ∷ []) one_used 0 2 one_used-Pending tt (omega arith, tt) (omega arith)

-- A request takes descriptors 3 and 2 of a fresh queue.
first_pair : get_free_twice (new_free 4) ≡ (some (3, 2), 1 ∷ 0 ∷ [])
unfolding get_free_twice new_free
first_pair = refl

Reach-count_example : count 3 (1 ∷ 0 ∷ []) + count 3 (3 ∷ 2 ∷ []) ≡ 1
Reach-count_example = Reach-count 4 3 (next start (take_twice 3 2 first_pair))
