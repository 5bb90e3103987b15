-- ===== src/Globals/Tests.antt =====
-- The input state on concrete values.
use fomos.Common.{◌≡◌, refl, true, false, none, some, List, [], ◌∷◌, arith}
use fomos.Globals.{Input, InputEvent, new, handle_incoming_state, handle_all}
use fomos.Globals.Keys
use fomos.Globals.Valid.{new-IsValid}
use fomos.Globals.History.{new_inputs, new_inputs-handle_all}

abbrev press_a : InputEvent
press_a = record { trigger = true; key = 30 }

abbrev release_a : InputEvent
release_a = record { trigger = false; key = 30 }

abbrev tap : List InputEvent
tap = press_a ∷ release_a ∷ []

abbrev after_tap : Input
after_tap = elim (handle_all new tap) [ none ↦ new | some input ↦ input ]

tap_taken : handle_all new tap ≡ some after_tap
unfolding handle_all handle_incoming_state new Keys.handle_incoming_state
tap_taken = refl

new_inputs-handle_all_example : new_inputs 0 after_tap ≡ some tap
unfolding new
new_inputs-handle_all_example =
    new_inputs-handle_all new after_tap tap new-IsValid (omega arith) (omega arith) tap_taken

handle_frame-toggles_example :
    Keys.handle_frame Keys.off (true ∷ false ∷ true ∷ false ∷ []) ≡ Keys.off_from_on
handle_frame-toggles_example = Keys.handle_frame-toggles 4
