-- ===== src/Drivers/VirtioGpu/Wakers.antt =====
-- Those who wait for a descriptor, and the loop over the used ring that wakes them.
use fomos.Common.{
  ℕ, zero, suc, ◌≤◌, ◌<◌, ◌≡◌, refl, ap, ◌∙◌, ◌≢◌, Bool, true, false, ◌||◌, some, List, [], ◌∷◌,
  ◌++◌, foldl, All, arith, length, get_elem?, set, put-eq-set, length-set, get_elem?-set_self,
  get_elem?-set_ne, ◌==◌, ==_iff, ==_refl, if◌then◌else◌, inl, inr, Bool-cases, get_or,
  get_elem?-eq-get_or,
}
use fomos.Task.Executor.{ready}
use fomos.Virtio.{Virtqueue, UsedElem}
use fomos.Virtio.Used.{Pending, while_used, while_used_lem}
use fomos.Drivers.VirtioGpu.{
  IdWaker, nobody, done, waker, num_wakers, Wakers, woken_by, wake_used, poll_slot, id_wait_poll,
}

-- What `wake_used` does to the wakers.
act : Wakers → UsedElem → Wakers
act (wakers, woken) used =
    (set wakers used.id done, woken ++ woken_by (get_or wakers used.id nobody))

wake_used_lem :
    (n : ℕ)
    → n ≤ num_wakers
    → (x : UsedElem) (xs : List UsedElem) (q : Virtqueue) (s : Wakers) → x.id < n
    → length s.0 ≡ num_wakers
    → Pending n q xs
    → (q' : Virtqueue) × (wake_used x q s ≡ some (q', act s x))
      × Pending n q' xs
      × (length (act s x).0 ≡ num_wakers)
unfolding wake_used act
wake_used_lem n fits x xs q (wakers, woken) h full p = (
  q,
  rw
      (
        wake_used,
        get_elem?-eq-get_or wakers x.id nobody (omega (arith, full)),
        put-eq-set wakers x.id done (omega (arith, full)),
      )
      refl,
  p,
  length-set wakers x.id done ∙ full,
)

-- Whether a descriptor is among the entries.
abbrev pub is_used : ℕ → List UsedElem → Bool
is_used id [] = false
is_used id (x ∷ xs) = (x.id == id) || is_used id xs

-- Whether a task is among those woken.
abbrev pub is_woken : ℕ → List ℕ → Bool
is_woken task [] = false
is_woken task (t ∷ ts) = (t == task) || is_woken task ts

is_woken-append :
    (task : ℕ) (ts us : List ℕ) → is_woken task (ts ++ us) ≡ (is_woken task ts || is_woken task us)
is_woken-append task [] us = refl
is_woken-append task (t ∷ ts) us = ground (arith, is_woken-append task ts us)

act-set :
    (s : Wakers) (x : UsedElem) (id : ℕ)
    → id < length s.0
    → get_elem? (act s x).0 id ≡ (if x.id == id then some done else get_elem? s.0 id)
unfolding act
act-set s x id h = elim (Bool-cases (x.id == id)) [
  | inl same ↦
      let eq = (==_iff x.id id).0 same in
      rw same (ap (λ k. get_elem? (set s.0 k done) id) eq ∙ get_elem?-set_self s.0 id done h)
  | inr other ↦ rw other (get_elem?-set_ne s.0 done (λ q. cc (other, (==_iff x.id id).1 q)))
]

act-length : (s : Wakers) (x : UsedElem) → length (act s x).0 ≡ length s.0
unfolding act
act-length s x = length-set s.0 x.id done

-- The slots after the loop: done for what was used, as before for the rest.
slot_after :
    (xs : List UsedElem) (s : Wakers) (id : ℕ)
    → id < length s.0
    → get_elem? (foldl act s xs).0 id ≡ (if is_used id xs then some done else get_elem? s.0 id)
slot_after [] s id h = refl
slot_after (x ∷ xs) s id h =
    slot_after xs (act s x) id (omega (arith, act-length s x)) ∙ ground (arith, act-set s x id h)

woken_now :
    (s : Wakers) (x : UsedElem) (id task : ℕ)
    → x.id ≡ id
    → id < length s.0
    → get_elem? s.0 id ≡ some (waker task)
    → is_woken task (act s x).1 ≡ true
unfolding act woken_by
woken_now s x id task same h e =
    let slot : get_or s.0 x.id nobody ≡ waker task =
      cc (e, get_elem?-eq-get_or s.0 id nobody h, same) in
    is_woken-append task s.1 (woken_by (get_or s.0 x.id nobody))
    ∙ rw (slot, ==_refl task) ground arith

woken-kept :
    (xs : List UsedElem) (s : Wakers) (task : ℕ)
    → is_woken task s.1 ≡ true
    → is_woken task (foldl act s xs).1 ≡ true
unfolding act
woken-kept [] s task e = e
woken-kept (x ∷ xs) s task e =
    woken-kept xs (act s x) task
      (ground (arith, is_woken-append task s.1 (woken_by (get_or s.0 x.id nobody)), e))

woken_after :
    (xs : List UsedElem) (s : Wakers) (id task : ℕ)
    → id < length s.0
    → get_elem? s.0 id ≡ some (waker task)
    → is_used id xs ≡ true
    → is_woken task (foldl act s xs).1 ≡ true
woken_after [] s id task h e u = cc
woken_after (x ∷ xs) s id task h e u = elim (Bool-cases (x.id == id)) [
  | inl same ↦ woken-kept xs (act s x) task (woken_now s x id task ((==_iff x.id id).0 same) h e)
  | inr other ↦
      woken_after xs (act s x) id task (omega (arith, act-length s x))
        (act-set s x id h ∙ rw other e) (ground (arith, u, other))
]

-- The loop `'checkall` ends, without a panic and with nothing left in the used ring. After it the
-- slot of each used descriptor is done, the other slots are as before, and each task that waited for
-- a used descriptor has been woken. (`fuel` bounds the rounds.)
checkall_lem :
    (n : ℕ) (xs : List UsedElem) (q : Virtqueue) (wakers : List IdWaker) (fuel : ℕ)
    → n ≤ num_wakers
    → length wakers ≡ num_wakers
    → Pending n q xs
    → All (λ x. x.id < n) xs
    → length xs < fuel
    → (q' : Virtqueue) × (wakers' : List IdWaker) × (woken : List ℕ) × (while_used wake_used fuel q
          (wakers, [])
        ≡ some (q', (wakers', woken)))
      × Pending n q' []
      × ((id : ℕ)
          → id < num_wakers
          → get_elem? wakers' id ≡ (if is_used id xs then some done else get_elem? wakers id))
      × ((id task : ℕ)
          → id < num_wakers
          → get_elem? wakers id ≡ some (waker task)
          → is_used id xs ≡ true
          → is_woken task woken ≡ true)
checkall_lem n xs q wakers fuel fits full p known enough =
    let (q', ran, p') =
      while_used_lem wake_used n act (λ s. length s.0 ≡ num_wakers) (wake_used_lem n fits) xs q
        (wakers, []) fuel p full known enough in
    (
      q',
      (foldl act (wakers, []) xs).0,
      (foldl act (wakers, []) xs).1,
      ran,
      p',
      (λ id h. slot_after xs (wakers, []) id (omega (arith, full))),
      (λ id task h e u. woken_after xs (wakers, []) id task (omega (arith, full)) e u),
    )

get_elem?-lt : {A : Type 0} (xs : List A) (i : ℕ) (a : A) → get_elem? xs i ≡ some a → i < length xs
get_elem?-lt [] i a e = cc
get_elem?-lt (x ∷ xs) zero a e = omega arith
get_elem?-lt (x ∷ xs) (suc i) a e = omega (arith, get_elem?-lt xs i a e)

-- A poll changes its own slot as `poll_slot` says, and no other.
id_wait_poll_lem :
    (id task : ℕ) (wakers : List IdWaker) (slot : IdWaker)
    → get_elem? wakers id ≡ some slot
    → id < length wakers
    → (wakers' : List IdWaker) × (id_wait_poll id task wakers
        ≡ some ((poll_slot slot task).0, wakers'))
      × (get_elem? wakers' id ≡ some (poll_slot slot task).1)
      × ((k : ℕ) → id ≢ k → get_elem? wakers' k ≡ get_elem? wakers k)
unfolding id_wait_poll
id_wait_poll_lem id task wakers slot e h = (
  set wakers id (poll_slot slot task).1,
  rw (id_wait_poll, e, put-eq-set wakers id (poll_slot slot task).1 h) refl,
  get_elem?-set_self wakers id (poll_slot slot task).1 h,
  (λ k ne. get_elem?-set_ne wakers (poll_slot slot task).1 ne),
)

-- After the loop `'checkall` a poll for a descriptor that the device had used is ready, whoever polls
-- and whether or not anyone waited before, and leaves the slot free for the next request.
pub checkall-id_wait_poll :
    (n : ℕ) (xs : List UsedElem) (q : Virtqueue) (wakers : List IdWaker) (fuel id task : ℕ)
    → n ≤ num_wakers
    → length wakers ≡ num_wakers
    → Pending n q xs
    → All (λ x. x.id < n) xs
    → length xs < fuel
    → id < num_wakers
    → is_used id xs ≡ true
    → (q' : Virtqueue) × (wakers' : List IdWaker) × (woken : List ℕ) × (wakers'' : List IdWaker)
      × (while_used wake_used fuel q (wakers, []) ≡ some (q', (wakers', woken)))
      × (id_wait_poll id task wakers' ≡ some (ready, wakers''))
      × (get_elem? wakers'' id ≡ some nobody)
unfolding poll_slot
checkall-id_wait_poll n xs q wakers fuel id task fits full p known enough h u =
    let (q', wakers', woken, ran, _, slots, _) =
      checkall_lem n xs q wakers fuel fits full p known enough in
    let slot = slots id h ∙ rw u refl in
    let (wakers'', polled, free, _) =
      id_wait_poll_lem id task wakers' done slot (get_elem?-lt wakers' id done slot) in
    (q', wakers', woken, wakers'', ran, polled, free)
