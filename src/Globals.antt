-- ===== src/Globals.antt =====
-- bootloader/kernel/src/globals.rs: the input state that the drivers fill and the apps read.
-- `handle_incoming_state` and `step` are the methods of `Input`; those of `KeyState` stand in Keys.
pub mod Keys
pub mod Valid
pub mod History
mod Tests
use fomos.Common.{
  ℕ, ◌+◌, ◌%◌, ◌^◌, Bool, false, Option, some, List, map, get_elem?, set, replicate, ◌>>=◌,
}
use Keys
use Keys.{KeyState, off}

pub record InputEvent : Type 0 where
  pub trigger : Bool
  pub key : ℕ

abbrev pub history_size : ℕ
history_size = 64

pub record Input : Type 0 where
  pub mouse_x : ℕ
  pub mouse_y : ℕ
  pub keys : List KeyState
  pub history_last_index : ℕ
  pub history_ring : List InputEvent

unfoldable pub new : Input
new = record {
  mouse_x = 0;
  mouse_y = 0;
  keys = replicate 1024 off;
  history_last_index = 0;
  history_ring = replicate history_size (record { trigger = false; key = 0 });
}

unfoldable pub step : Input → Input
step input = record input { keys = map Keys.step input.keys }

-- `none` is the panic of `self.keys[key]` out of range. The index is a `usize` and wraps.
unfoldable pub handle_incoming_state : Input → ℕ → Bool → Option Input
handle_incoming_state input key b = do
  let last = (input.history_last_index + 1) % 2 ^ 64
  let event : InputEvent = record { trigger = b; key = key }
  state ← get_elem? input.keys key
  some (record input {
    history_last_index = last;
    history_ring = set input.history_ring (last % history_size) event;
    keys = set input.keys key (Keys.handle_incoming_state state b);
  })

-- The events of a frame, in the order in which they come in.
unfoldable pub handle_all : Input → List InputEvent → Option Input
handle_all input List.[] = some input
handle_all input (List.◌∷◌ e es) = do
  input' ← handle_incoming_state input e.key e.trigger
  handle_all input' es
