-- ===== src/Console/Frame/Total.antt =====
-- A whole frame of the console in the shell.
use fomos.Common.{◌≡◌, Option, none, some}
use mathlib.Core.Option
use fomos.Globals.{Input}
use fomos.Globals.Keys
use fomos.Console.Script.{Script}
use fomos.Console.Shell.{shell}
use fomos.Console.Inputs.Prompt.{HasPrompt}
use fomos.Console.Window.{FbSize}
use fomos.Console.Window.Screen.{IsOnScreen}
use fomos.Console.Frame.{AppStore}

-- The line of the user is there, and the console is not in the REPL.
pub record InShell {Ctx : Type 0} (s : AppStore Ctx) : Type 0 where
  pub prompt : HasPrompt s.keyboard
  pub mode : s.keyboard.mode ≡ shell

-- What a frame may find and what it leaves in `ctx.store`.
abbrev pub Found : {Ctx : Type 0} → Option (AppStore Ctx) → Type 0
Found none = Unit
Found (some s) = InShell s

abbrev pub Left : {Ctx : Type 0} → FbSize → Input → Option (AppStore Ctx) → Type 0
Left fb input none = Unit
Left fb input (some s) =
    HasPrompt s.keyboard
    × (s.input_history_last_index ≡ input.history_last_index)
    × IsOnScreen fb s.window
