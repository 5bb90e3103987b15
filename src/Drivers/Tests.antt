-- ===== src/Drivers/Tests.antt =====
-- The input driver on concrete events.
use fomos.Common.{◌≡◌, some, List, [], ◌∷◌, arith}
use fomos.Globals.{Input, new}
use fomos.Globals.Valid.{new-IsValid}
use fomos.Drivers.VirtioInput.{VirtioInputEvent, IsReady, handle_events, handle_events-IsReady}

abbrev evts : List VirtioInputEvent
evts =
    record { type_ = 1; code = 30; value = 1 }
    ∷ record { type_ = 2; code = 0; value = 7 }
    ∷ record { type_ = 0; code = 0; value = 0 }
    ∷ []

new-IsReady : IsReady new
unfolding new
new-IsReady = record { valid = new-IsValid; x_small = omega arith; y_small = omega arith }

handle_events-IsReady_example :
    (input' : Input) × (handle_events new evts ≡ some input') × IsReady input'
handle_events-IsReady_example =
    handle_events-IsReady evts new new-IsReady
      (λ e. omega arith, (λ e. omega arith, (λ e. omega arith, tt)))
