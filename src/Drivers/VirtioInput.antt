-- ===== src/Drivers/VirtioInput.antt =====
-- bootloader/kernel/src/drivers/virtio_input.rs: what one event of an input device does to the
-- input state. The loop of `drive` takes the events from the used ring (see Virtio) one by one.
use fomos.Common.{
  ℕ, ◌^◌, ◌<◌, ◌≡◌, refl, inl, inr, not, Option, some, List, [], ◌∷◌, All, arith, ◌==◌, ==_iff,
  if◌then◌else◌, ◌>>=◌, Bool-cases,
}
use fomos.Common.Int.{pos_part, ◌+ℤ◌, to_signed, of_signed}
use fomos.Globals.{Input, handle_incoming_state}
use fomos.Globals.Valid.{IsValid, handle-Handled}

pub record VirtioInputEvent : Type 0 where
  pub type_ : ℕ
  pub code : ℕ
  pub value : ℕ

-- `(x as i32 + d).max(0) as usize`, the sum wrapping at 32 bits.
unfoldable pub move_by : ℕ → ℕ → ℕ
unfolding ◌+ℤ◌
move_by x value = pos_part (to_signed 32 (of_signed 32 (to_signed 32 x +ℤ to_signed 32 value)))

unfoldable pub move_mouse : Input → VirtioInputEvent → Input
move_mouse input evt =
    if evt.code == 0
    then record input { mouse_x = move_by input.mouse_x evt.value }
    else if evt.code == 1
    then record input { mouse_y = move_by input.mouse_y evt.value }
    else input

-- The closure given to `INPUT.update`; an unknown event is only logged.
unfoldable pub handle_event : Input → VirtioInputEvent → Option Input
handle_event input evt =
    if evt.type_ == 0
    then some input
    else if evt.type_ == 1
    then handle_incoming_state input evt.code (not (evt.value == 0))
    else if evt.type_ == 2
    then some (move_mouse input evt)
    else some input

-- The events that the device has left in the used ring, in order.
unfoldable pub handle_events : Input → List VirtioInputEvent → Option Input
handle_events input [] = some input
handle_events input (evt ∷ evts) = do input' ← handle_event input evt; handle_events input' evts

move_by-lt : (x value : ℕ) → move_by x value < 2 ^ 31
unfolding move_by
move_by-lt x value = ground arith

-- The arrays keep their lengths, and the pointer stays within the positive `i32`.
pub record IsReady (input : Input) : Type 0 where
  pub valid : IsValid input
  pub x_small : input.mouse_x < 2 ^ 31
  pub y_small : input.mouse_y < 2 ^ 31

-- An event code of a key that the array holds, if the event is a key's.
abbrev pub IsKnown : VirtioInputEvent → Type 0
IsKnown evt = evt.type_ ≡ 1 → evt.code < 1024

move_mouse-IsReady :
    (input : Input) (evt : VirtioInputEvent) → IsReady input → IsReady (move_mouse input evt)
unfolding move_mouse
move_mouse-IsReady input evt r =
    ground (arith, move_by-lt input.mouse_x evt.value, move_by-lt input.mouse_y evt.value)

key_event-IsReady :
    (input : Input) (evt : VirtioInputEvent)
    → IsReady input
    → evt.code < 1024
    → (input' : Input) × (handle_incoming_state input evt.code (not (evt.value == 0)) ≡ some input')
      × IsReady input'
key_event-IsReady input evt r h =
    let (input', e, done) = handle-Handled input evt.code (not (evt.value == 0)) r.valid h in
    let (same_x, same_y) = done.mouse in
    (
      input',
      e,
      record {
        valid = done.valid;
        x_small = omega (arith, same_x, r.x_small);
        y_small = omega (arith, same_y, r.y_small);
      },
    )

handle_event-IsReady :
    (input : Input) (evt : VirtioInputEvent)
    → IsReady input
    → IsKnown evt
    → (input' : Input) × (handle_event input evt ≡ some input') × IsReady input'
unfolding handle_event
handle_event-IsReady input evt r k = elim (Bool-cases (evt.type_ == 0)) [
  | inl no_op ↦ rw no_op (input, refl, r)
  | inr other ↦ elim (Bool-cases (evt.type_ == 1)) [
    | inl key ↦ rw (other, key) (key_event-IsReady input evt r (k ((==_iff evt.type_ 1).0 key)))
    | inr no_key ↦ elim (Bool-cases (evt.type_ == 2)) [
      | inl mouse ↦
          rw (other, no_key, mouse) (move_mouse input evt, refl, move_mouse-IsReady input evt r)
      | inr unknown ↦ rw (other, no_key, unknown) (input, refl, r)
    ]
  ]
]

-- Whatever an input device reports, the driver does not panic as long as the key codes stay below
-- 1024: the two arrays keep their lengths and the pointer its range.
pub handle_events-IsReady :
    (evts : List VirtioInputEvent) (input : Input)
    → IsReady input
    → All IsKnown evts
    → (input' : Input) × (handle_events input evts ≡ some input') × IsReady input'
unfolding handle_events
handle_events-IsReady [] input r k = (input, refl, r)
handle_events-IsReady (evt ∷ evts) input r k =
    let (mid, first, r') = handle_event-IsReady input evt r k.0 in
    rw first (handle_events-IsReady evts mid r' k.1)
