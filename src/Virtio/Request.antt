-- ===== src/Virtio/Request.antt =====
-- `set_available` and `add_request`: what the driver offers to the device.
use native.Mathlib.Nat.{mod-mod_of_dvd, mod-lt}
use fomos.Common.{
  ℕ, ◌+◌, ◌%◌, ◌^◌, ◌<◌, ◌≡◌, refl, sym, ap, subst, ◌∙◌, ◌≢◌, some, List, [], ◌∷◌, ◌++◌, arith,
  length, get_elem?, set, length-set, length-append, put-eq-set, get_elem?-some, get_elem?-set_self,
  get_elem?-set_ne, ◌==◌, ==_refl, if◌then◌else◌,
}
use fomos.Virtio.{
  Virtqueue, Desc, UsedElem, set_available, set_writable, add_request, set_writable_available,
  virtq_desc_f_next, virtq_desc_f_write,
}
use fomos.Virtio.Ring.{Holds, Holds-append}
use fomos.Virtio.Used.{IsSized, Pending}

-- The chains that the driver has offered from the device's index `seen` on, oldest first.
pub record Offered (n : ℕ) (q : Virtqueue) (seen : ℕ) (ids : List ℕ) : Type 0 where
  pub sized : IsSized n q
  pub index : q.driver_idx ≡ (seen + length ids) % 2 ^ 16
  pub entries : Holds q.queue_size q.driver_ring seen ids

-- The queue after `set_available`.
abbrev offer : Virtqueue → ℕ → Virtqueue
offer q id = record q {
  driver_ring = set q.driver_ring (q.driver_idx % q.queue_size) id;
  driver_idx = (q.driver_idx + 1) % 2 ^ 16;
}

set_available_lem :
    (n : ℕ) (q : Virtqueue) (id : ℕ) → IsSized n q → set_available q id ≡ some (offer q id)
unfolding set_available
set_available_lem n q id v = rw (
    put-eq-set q.driver_ring (q.driver_idx % q.queue_size) id
      (omega (arith, mod-lt q.driver_idx {m = q.queue_size} v.positive, v.available_fits)))

offer-IsSized : (n : ℕ) (q : Virtqueue) (id : ℕ) → IsSized n q → IsSized n (offer q id)
offer-IsSized n q id v = record {
  size = v.size;
  descs_fit = v.descs_fit;
  positive = v.positive;
  small = v.small;
  divides = v.divides;
  used_fits = v.used_fits;
  available_fits = omega (arith, v, length-set q.driver_ring (q.driver_idx % q.queue_size) id);
}

offer-Offered :
    (n : ℕ) (q : Virtqueue) (seen id : ℕ) (ids : List ℕ)
    → Offered n q seen ids
    → length ids < q.queue_size
    → Offered n (offer q id) seen (ids ++ (id ∷ []))
offer-Offered n q seen id ids o room = record {
  sized = offer-IsSized n q id o.sized;
  index = omega (arith, length-append ids (id ∷ []));
  entries =
      subst (λ i. Holds q.queue_size (set q.driver_ring i id) seen (ids ++ (id ∷ []))) place
        (Holds-append q.queue_size q.driver_ring ids seen id o.sized.available_fits room o.entries);
}
  where
    place : (seen + length ids) % q.queue_size ≡ q.driver_idx % q.queue_size
    place =
        sym (mod-mod_of_dvd q.queue_size (seen + length ids) o.sized.divides)
        ∙ ap (λ k. k % q.queue_size) (sym o.index)

-- The queue after `set_writable` of a descriptor that stands as `desc`.
abbrev writable : Virtqueue → ℕ → Desc → Virtqueue
writable q id desc = record q {
  descs = set q.descs id (record desc { flags = virtq_desc_f_write; len = 4096 });
}

set_writable_lem :
    (n : ℕ) (q : Virtqueue) (id : ℕ) (desc : Desc)
    → get_elem? q.descs id ≡ some desc
    → id < length q.descs
    → set_writable q id ≡ some (writable q id desc)
unfolding set_writable
set_writable_lem n q id desc e h =
    rw (e, put-eq-set q.descs id (record desc { flags = virtq_desc_f_write; len = 4096 }) h)

-- `q` with its memory and its table of descriptors changed.
abbrev with_descs : Virtqueue → (ℕ → List ℕ) → List Desc → Virtqueue
with_descs q memory' descs' = record q { memory = memory'; descs = descs' }

with_descs-IsSized :
    (n : ℕ) (q : Virtqueue) (memory' : ℕ → List ℕ) (descs' : List Desc)
    → length descs' ≡ length q.descs
    → IsSized n q
    → IsSized n (with_descs q memory' descs')
with_descs-IsSized n q memory' descs' e v = record {
  size = v.size;
  descs_fit = omega (arith, e, v.descs_fit);
  positive = v.positive;
  small = v.small;
  divides = v.divides;
  used_fits = v.used_fits;
  available_fits = v.available_fits;
}

-- What `add_request` leaves: a chain of two descriptors, the first with the bytes of the request
-- at its address, the second for the device to write its answer of up to 4096 bytes; the chain
-- offered after those offered before; and the used ring and the free list as they were.
pub record Requested (n : ℕ) (q q' : Virtqueue) (seen : ℕ) (ids : List ℕ) (id next : ℕ)
    (desc answer : Desc) (bytes : List ℕ) : Type 0 where
  pub first :
      get_elem? q'.descs id
      ≡ some (record desc { len = length bytes % 2 ^ 32; flags = virtq_desc_f_next; next = next })
  pub second :
      get_elem? q'.descs next ≡ some (record answer { flags = virtq_desc_f_write; len = 4096 })
  pub data_written : q'.memory desc.addr ≡ bytes
  pub offered : Offered n q' seen (ids ++ (id ∷ []))
  pub used_kept :
      (q'.device_ring ≡ q.device_ring)
      × (q'.device_idx ≡ q.device_idx)
      × (q'.last_used_idx ≡ q.last_used_idx)
      × (q'.free ≡ q.free)

-- `add_request` of two different descriptors of the queue succeeds, with the effect that
-- `Requested` describes, while the device has fewer chains before it than the queue has places.
pub add_request_lem :
    (n : ℕ) (q : Virtqueue) (seen : ℕ) (ids : List ℕ) (id next : ℕ) (desc answer : Desc)
    (bytes : List ℕ)
    → Offered n q seen ids
    → length ids < n
    → id < n
    → next < n
    → id ≢ next
    → get_elem? q.descs id ≡ some desc
    → get_elem? q.descs next ≡ some answer
    → (q' : Virtqueue) × (add_request q id next bytes ≡ some q')
      × Requested n q q' seen ids id next desc answer bytes
unfolding add_request
add_request_lem n q seen ids id next desc answer bytes o room hi hn ne e1 e2 =
    let head : Desc = record desc {
      len = length bytes % 2 ^ 32;
      flags = virtq_desc_f_next;
      next = next;
    } in
    let q1 : Virtqueue = record q {
      memory = λ a. if a == desc.addr then bytes else q.memory a;
      descs = set q.descs id head;
    } in
    let q2 : Virtqueue = writable q1 next answer in
    let same_length : length q2.descs ≡ length q.descs =
      length-set (set q.descs id head) next _ ∙ length-set q.descs id head in
    let still : get_elem? q1.descs next ≡ some answer = get_elem?-set_ne q.descs head ne ∙ e2 in
    let in_table : next < length q1.descs = omega (arith, length-set q.descs id head, o.sized) in
    let o2 : Offered n q2 seen ids = record {
      sized = with_descs-IsSized n q q1.memory q2.descs same_length o.sized;
      index = o.index;
      entries = o.entries;
    } in
    (
      offer q2 id,
      rw (
        e1,
        put-eq-set q.descs id head (omega (arith, o.sized)),
        set_writable_lem n q1 next answer still in_table,
        set_available_lem n q2 id o2.sized,
      ),
      record {
        first =
            get_elem?-set_ne (set q.descs id head) _ (λ e. ne (sym e))
            ∙ get_elem?-set_self q.descs id head (omega (arith, o.sized));
        second = get_elem?-set_self (set q.descs id head) next _ in_table;
        data_written = rw (==_refl desc.addr);
        offered = offer-Offered n q2 seen id ids o2 (omega (arith, o.sized));
        used_kept = (refl, refl, refl, refl);
      },
    )

-- Giving a descriptor of the queue back to the device leaves what is pending in the used ring.
pub set_writable_available-Pending :
    (n : ℕ) (q : Virtqueue) (id : ℕ) (xs : List UsedElem)
    → id < n
    → Pending n q xs
    → (q' : Virtqueue) × (set_writable_available q id ≡ some q') × Pending n q' xs
unfolding set_writable_available
set_writable_available-Pending n q id xs h p =
    let (desc, e) = get_elem?-some q.descs id (omega (arith, p.sized)) in
    let q1 : Virtqueue = writable q id desc in
    let sized1 : IsSized n q1 =
      with_descs-IsSized n q q.memory q1.descs (length-set q.descs id _) p.sized in
    (
      offer q1 id,
      rw (
        set_writable_lem n q id desc e (omega (arith, p.sized)),
        set_available_lem n q1 id sized1,
      ),
      record {
        sized = offer-IsSized n q1 id sized1;
        few = p.few;
        index = p.index;
        entries = p.entries;
      },
    )
