-- ===== src/Drivers/VirtioGpu/Requests.antt =====
-- `request` of the GPU driver: the chain that it offers, and what it has when the answer is there.
use fomos.Common.{ℕ, ◌<◌, ◌≡◌, refl, ◌≢◌, some, List, ◌∷◌, length, get_elem?}
use fomos.Virtio.{Virtqueue, Desc, get_free_twice, get_free_twice_desc_id}
use fomos.Virtio.Used.{IsSized}
use fomos.Virtio.Request.{Offered, Requested, add_request_lem}
use fomos.Drivers.VirtioGpu.{request_start, start_with}

-- The queue without the two descriptors.
abbrev pub taken : Virtqueue → List ℕ → Virtqueue
taken q rest = record q { free = rest }

taken-IsSized : (n : ℕ) (q : Virtqueue) (rest : List ℕ) → IsSized n q → IsSized n (taken q rest)
taken-IsSized n q rest v = record {
  size = v.size;
  descs_fit = v.descs_fit;
  positive = v.positive;
  small = v.small;
  divides = v.divides;
  used_fits = v.used_fits;
  available_fits = v.available_fits;
}

-- While there are two free descriptors, and the device has fewer chains before it than the queue has
-- places, `request` offers the chain of the two with the effect that `Requested` describes.
pub request_start_lem :
    (n : ℕ) (q : Virtqueue) (seen : ℕ) (ids : List ℕ) (id next : ℕ) (rest bytes : List ℕ)
    (desc answer : Desc)
    → Offered n q seen ids
    → length ids < n
    → q.free ≡ id ∷ (next ∷ rest)
    → id < n
    → next < n
    → id ≢ next
    → get_elem? q.descs id ≡ some desc
    → get_elem? q.descs next ≡ some answer
    → (q' : Virtqueue) × (request_start q bytes ≡ some (id, next, q'))
      × Requested n (taken q rest) q' seen ids id next desc answer bytes
unfolding request_start start_with get_free_twice_desc_id get_free_twice
request_start_lem n q seen ids id next rest bytes desc answer o room free hi hn ne e1 e2 =
    let (q', e, done) =
      add_request_lem n (taken q rest) seen ids id next desc answer bytes
        (record { sized = taken-IsSized n q rest o.sized; index = o.index; entries = o.entries })
        room hi hn ne e1 e2 in
    (q', rw (request_start, free, e) refl, done)
