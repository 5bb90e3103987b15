-- ===== src/Console/Frame.antt =====
-- app_console/src/main.rs: `_start`, one frame of the console, without what it draws. The inner
-- `Option` is `ctx.store`: what the app finds there and what it leaves; the outer `none` is a panic.
pub mod Total
use mathlib.Core.Option
use fomos.Common.{
  ℕ, ◌+◌, ◌*◌, ◌%◌, ◌^◌, true, false, Option, none, some, List, [], ◌∷◌, get_elem?, ◌==◌,
  if◌then◌else◌, ◌>>=◌,
}
use fomos.Globals.{Input, InputEvent}
use fomos.Globals.Keys
use fomos.Globals.History.{new_inputs}
use fomos.Console.Keymap.{en}
use fomos.Console.Text.{codes}
use fomos.Console.Script.{Script}
use fomos.Console.Shell.{Store, shell, AppContext, push_atom, prompt}
use fomos.Console.Inputs.{handle_events}
use fomos.Console.Window.{Window, FbSize, Mouse, not_resizing, update_window}

abbrev pub btn_left : ℕ
btn_left = 272

-- `Store`: the window, the keyboard with its lines, and the counters.
pub record AppStore (Ctx : Type 0) : Type 0 where
  pub window : Window
  pub keyboard : Store Ctx
  pub step : ℕ
  pub input_history_last_index : ℕ

module _ (script : Script) where
  open script use {Ctx}

  -- The store of the first frame.
  unfoldable pub new_store : AppContext → Input → AppStore Ctx
  new_store app input = record {
    window = record {
      x = (100 + app.pid * 100) % 2 ^ 64;
      y = (100 + app.pid * 100) % 2 ^ 64;
      x2 = (1000 + app.pid * 100) % 2 ^ 64;
      y2 = (700 + app.pid * 100) % 2 ^ 64;
      resizing = not_resizing;
      moving = none;
      active = false;
    };
    keyboard = record {
      console_history = [];
      loc = en;
      shift = false;
      altg = false;
      script_ctx = script.new;
      mode = shell;
    };
    step = 0;
    input_history_last_index = input.history_last_index;
  }

  -- `if store.step == 0` and `store.step += 1`
  unfoldable pub greet : AppStore Ctx → AppStore Ctx
  unfolding push_atom
  greet s =
      let welcomed =
        push_atom true (prompt shell) (push_atom false (codes "Welcome to Fomos !") s.keyboard) in
      record s {
        keyboard = if s.step == 0 then welcomed else s.keyboard;
        step = (s.step + 1) % 2 ^ 64;
      }

  -- `if store.active` and the last line but one.
  unfoldable pub read_inputs : AppContext → Input → AppStore Ctx → Option (Option (AppStore Ctx))
  read_inputs app input s =
      if s.window.active
      then (do
        events ← new_inputs s.input_history_last_index input
        keyboard' ← handle_events script app events s.keyboard
        some (
            Option.map
              (λ k. record s { keyboard = k; input_history_last_index = input.history_last_index })
              keyboard'))
      else some (some (record s { input_history_last_index = input.history_last_index }))

  unfoldable pub start :
      FbSize → AppContext → Input → Option (AppStore Ctx) → Option (Option (AppStore Ctx))
  unfolding new_store greet read_inputs
  start fb app input found = do
    let s = greet (Option.get_or found (new_store app input))
    button ← get_elem? input.keys btn_left
    let mouse : Mouse = record {
      mx = input.mouse_x;
      my = input.mouse_y;
      button = Keys.to_u8 button;
    }
    read_inputs app input (record s { window = update_window fb mouse s.window })
