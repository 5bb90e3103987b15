-- ===== src/Apps/Events.antt =====
-- The events that an app reads, which it does in every frame from the index that it saw before
-- (app_console/src/main.rs, `input_history_last_index`).
use fomos.Common.{ℕ, Option, some, List, [], ◌∷◌, ◌>>=◌}
use fomos.Globals
use fomos.Globals.{Input, InputEvent}
use fomos.Globals.History.{new_inputs}

-- What is read from each of the inputs, when `last` was seen before.
unfoldable pub reads : ℕ → List Input → Option (List (List InputEvent))
reads last [] = some []
reads last (input ∷ later) = do
  events ← new_inputs last input
  rest ← reads input.history_last_index later
  some (events ∷ rest)
