-- ===== src/Console/Inputs.antt =====
-- app_console/src/main.rs: the loop `'new_inputs`, which turns the events of the keyboard into the
-- line of the user. `none` is a panic.
pub mod Line
pub mod Prompt
pub mod Repl
use fomos.Common.{
  ℕ, ◌+◌, Bool, true, false, ◌&&◌, not, Option, none, some, List, [], ◌∷◌, ◌++◌, ◌==◌, ltb,
  if◌then◌else◌, ◌>>=◌,
}
use fomos.Globals.{InputEvent, Input}
use fomos.Globals.History.{new_inputs}
use fomos.Console.Keymap.{char}
use fomos.Console.Text.{Text, byte_length, pop}
use fomos.Console.Script.{Script}
use fomos.Console.Shell.{Atom, Store, Flow, go_on, leave, reset, AppContext, enter}

-- The keys that the loop names.
abbrev pub key_backspace : ℕ
key_backspace = 14

abbrev pub key_enter : ℕ
key_enter = 28

abbrev pub key_left_shift : ℕ
key_left_shift = 42

abbrev pub key_right_alt : ℕ
key_right_alt = 100

-- The first `match key`.
unfoldable pub update_modifiers : {Ctx : Type 0} → InputEvent → Store Ctx → Store Ctx
update_modifiers event s =
    if event.key == key_left_shift
    then record s { shift = event.trigger }
    else if event.key == key_right_alt
    then record s { altg = event.trigger }
    else s

-- `Key::KeyBackspace`
unfoldable pub backspace : ℕ → Text → Text
backspace key text =
    if key == key_backspace then (if ltb 1 (byte_length text) then pop text else text) else text

-- What the character of a key adds to the line; Enter with shift adds a line break.
unfoldable pub add_char : ℕ → Bool → Option ℕ → Text → Text
add_char key shift (some c) text = text ++ (c ∷ [])
add_char key shift none text = if key == key_enter && shift then text ++ (10 ∷ []) else text

-- A pressed key other than Enter alone, on the line of the user.
unfoldable pub type_key : {Ctx : Type 0} → ℕ → Store Ctx → Text → Option Text
unfolding backspace add_char
type_key key s text =
    char key s.loc s.shift s.altg >>= λ c. some (add_char key s.shift c (backspace key text))

unfoldable pub follow : {S : Type 0} → Flow S → (S → Option (Option S)) → Option (Option S)
follow (go_on s) rest = rest s
follow (leave s) rest = some (some s)
follow reset rest = some none

module _ (script : Script) where
  open script use {Ctx}

  -- `if (trigger)`, on the last atom and those before it.
  unfoldable pub press : ℕ → AppContext → Store Ctx → List Atom → Option (Flow (Store Ctx))
  unfolding type_key
  press key app s [] = some (go_on s)
  press key app s (last ∷ before) =
      if not last.is_user
      then some (go_on s)
      else if key == key_enter && not s.shift
      then enter script last.text app s
      else (type_key key s last.text >>= (λ text.
          some (go_on (record s { console_history = record last { text = text } ∷ before }))))

  unfoldable pub handle_event : AppContext → InputEvent → Store Ctx → Option (Flow (Store Ctx))
  unfolding update_modifiers press
  handle_event app event s =
      let s' = update_modifiers event s in
      if event.trigger then press event.key app s' s'.console_history else some (go_on s')

  -- The loop; an inner `none` is the reset.
  unfoldable pub handle_events :
      AppContext → List InputEvent → Store Ctx → Option (Option (Store Ctx))
  unfolding follow
  handle_events app [] s = some (some s)
  handle_events app (event ∷ events) s =
      handle_event app event s >>= λ flow. follow flow (λ s'. handle_events app events s')
