-- ===== src/Virtio/Init/Queues.antt =====
-- The frames that the queues take, and what each queue is in the end.
use fomos.Common.{
  ℕ, zero, suc, ◌+◌, ◌-◌, ◌^◌, ◌%◌, ◌≤◌, ◌≡◌, refl, sym, ap, ◌∙◌, some, List, [], ◌∷◌, ◌++◌, map,
  append_assoc, length, length-append, length-map, All, arith,
}
use fomos.Virtio.{Desc, virtq_desc_f_write, new_free}
use fomos.Virtio.Init.Device.{CommonCfg}
use fomos.Virtio.Init.{Queue, write_descs, init_queue, init_queues}

abbrev pub IsFreshDesc : Desc → Type 0
IsFreshDesc d = (d.len ≡ 4096) × (d.flags ≡ virtq_desc_f_write)

write_descs_lem :
    (n : ℕ) (frames : List ℕ)
    → n ≤ length frames
    → (descs : List Desc) × (rest : List ℕ) × (write_descs n frames ≡ some (descs, rest))
      × (map (λ d. d.addr) descs ++ rest ≡ frames)
      × (length descs ≡ n)
      × All IsFreshDesc descs
unfolding write_descs
write_descs_lem zero frames h = ([], frames, refl, refl, refl, tt)
write_descs_lem (suc n) [] h = absurd (omega arith)
write_descs_lem (suc n) (a ∷ frames) h =
    let (descs, rest, e, split, size, fresh) = write_descs_lem n frames (omega arith) in
    (
      record { addr = a; len = 4096; flags = virtq_desc_f_write; next = 0xffff } ∷ descs,
      rest,
      rw e refl,
      ap (λ l. a ∷ l) split,
      ap suc size,
      ((refl, refl), fresh),
    )

-- The frames of a queue, in the order in which they are taken.
abbrev pub frames_of : Queue → List ℕ
frames_of queue =
    queue.queue_desc
    ∷ (map (λ d. d.addr) queue.descs ++ (queue.queue_driver ∷ queue.queue_device ∷ []))

abbrev pub frames_of_all : List Queue → List ℕ
frames_of_all [] = []
frames_of_all (queue ∷ queues) = frames_of queue ++ frames_of_all queues

two_first : (l : List ℕ) → 2 ≤ length l → (a : ℕ) × (b : ℕ) × (rest : List ℕ) × (l ≡ a ∷ b ∷ rest)
two_first [] h = absurd (omega arith)
two_first (a ∷ []) h = absurd (omega arith)
two_first (a ∷ b ∷ rest) h = (a, b, rest, refl)

module _ (cfg : CommonCfg) where
  open cfg use {State, read_status, write_status, size_of}

  -- The frames that the queues from `q` on take.
  abbrev pub frames_needed : ℕ → ℕ → ℕ
  frames_needed q zero = 0
  frames_needed q (suc n) = 3 + size_of q + frames_needed (q + 1) n

  -- A queue of the size that the device gives, its descriptors fresh and all of them free, that asks for no
  -- interrupts and whose next entry is the first.
  pub record IsQueue (q : ℕ) (queue : Queue) : Type 0 where
    pub size : length queue.descs ≡ size_of q
    pub fresh : All IsFreshDesc queue.descs
    pub all_free : queue.free ≡ new_free (size_of q)
    pub no_interrupts : queue.driver_flags ≡ 1
    pub before_first : (queue.last_used_idx + 1) % 2 ^ 16 ≡ 0

  abbrev pub AreQueues : ℕ → List Queue → Type 0
  AreQueues q [] = Unit {0}
  AreQueues q (queue ∷ queues) = IsQueue q queue × AreQueues (q + 1) queues

  length-frames_of :
      (q : ℕ) (queue : Queue) → IsQueue q queue → length (frames_of queue) ≡ 3 + size_of q
  length-frames_of q queue v =
      let addrs : List ℕ = map (λ d. d.addr) queue.descs in
      omega (
        arith,
        length-append addrs (queue.queue_driver ∷ queue.queue_device ∷ []),
        length-map queue.descs (λ d. d.addr),
        v.size,
      )

  made : (q a : ℕ) (s : State) → List Desc → ℕ → ℕ → Queue
  made q a s descs b c = record {
    queue_desc = a;
    queue_driver = b;
    queue_device = c;
    descs = descs;
    free = new_free (cfg.queue_size (cfg.select s q));
    driver_flags = 1;
    last_used_idx = 2 ^ 16 - 1;
  }

  last_state : (q a : ℕ) (s : State) → ℕ → ℕ → State
  last_state q a s b c =
      cfg.enable (cfg.write_device (cfg.write_driver (cfg.write_desc (cfg.select s q) a) b) c)

  init_queue_run :
      (q a n : ℕ) (frames : List ℕ) (s : State) (descs : List Desc) (b c : ℕ) (rest : List ℕ)
      → cfg.queue_size (cfg.write_desc (cfg.select s q) a) ≡ n
      → write_descs n frames ≡ some (descs, b ∷ c ∷ rest)
      → init_queue cfg q (a ∷ frames) s ≡ some (made q a s descs b c, rest, last_state q a s b c)
  unfolding init_queue made last_state
  init_queue_run q a n frames s descs b c rest size e = rw (size, e) refl

  init_queue_lem :
      (q : ℕ) (frames : List ℕ) (s : State)
      → 3 + size_of q ≤ length frames
      → (queue : Queue) × (rest : List ℕ) × (s' : State) × (init_queue cfg q frames s
          ≡ some (queue, rest, s'))
        × (frames_of queue ++ rest ≡ frames)
        × IsQueue q queue
        × (read_status s' ≡ read_status s)
  unfolding made last_state
  init_queue_lem q [] s h = absurd (omega arith)
  init_queue_lem q (a ∷ frames) s h =
      let s1 = cfg.select s q in
      let s2 = cfg.write_desc s1 a in
      let size : cfg.queue_size s2 ≡ size_of q = cfg.size-write_desc s1 a ∙ cfg.size-select s q in
      let (descs, rest, e, split, count, fresh) =
        write_descs_lem (size_of q) frames (omega arith) in
      let addrs : List ℕ = map (λ d. d.addr) descs in
      let (b, c, rest', two) = two_first rest (
        omega (arith, length-append addrs rest, length-map descs (λ d. d.addr), ap length split)) in
      (
        made q a s descs b c,
        rest',
        last_state q a s b c,
        init_queue_run q a (size_of q) frames s descs b c rest' size
            (e ∙ ap (λ l. some (descs, l)) two),
        ap (λ l. a ∷ l)
            (append_assoc addrs (b ∷ c ∷ []) rest' ∙ ap (λ l. addrs ++ l) (sym two) ∙ split),
        record {
          size = count;
          fresh = fresh;
          all_free = ap new_free (cfg.size-select s q);
          no_interrupts = refl;
          before_first = refl;
        },
        cfg.status-enable (cfg.write_device (cfg.write_driver s2 b) c)
            ∙ cfg.status-write_device (cfg.write_driver s2 b) c
            ∙ cfg.status-write_driver s2 b
            ∙ cfg.status-write_desc s1 a
            ∙ cfg.status-select s q,
      )

  -- The queues that the frames are enough for.
  pub init_queues_lem :
      (q n : ℕ) (frames : List ℕ) (s : State)
      → frames_needed q n ≤ length frames
      → (queues : List Queue) × (rest : List ℕ) × (s' : State) × (init_queues cfg q n frames s
          ≡ some (queues, rest, s'))
        × (frames_of_all queues ++ rest ≡ frames)
        × (length queues ≡ n)
        × AreQueues q queues
        × (read_status s' ≡ read_status s)
  unfolding init_queues
  init_queues_lem q zero frames s h = ([], frames, s, refl, refl, refl, tt, refl)
  init_queues_lem q (suc n) frames s h =
      let (queue, rest, s1, e, split, is_queue, kept) = init_queue_lem q frames s (omega arith) in
      let (queues, rest', s2, e', split', count, are, kept') = init_queues_lem (q + 1) n rest s1 (
        omega (
          arith,
          length-append (frames_of queue) rest,
          length-frames_of q queue is_queue,
          ap length split,
        )) in
      (
        queue ∷ queues,
        rest',
        s2,
        rw (e, e') refl,
        append_assoc (frames_of queue) (frames_of_all queues) rest'
            ∙ ap (λ l. frames_of queue ++ l) split'
            ∙ split,
        ap suc count,
        (is_queue, are),
        kept' ∙ kept,
      )
