-- ===== src/Console/Shell.antt =====
-- app_console/src/main.rs: the lines of the console and what Enter does with one, `Key::KeyEnter if
-- !store.shift`. The head of a list of atoms is the end of the `Vec`.
use fomos.Common.{
  ℕ, zero, suc, ◌+◌, Bool, true, false, Option, none, some, List, ◌∷◌, ◌++◌, if◌then◌else◌, ◌>>=◌,
}
use fomos.Console.Keymap.{Local, en, fr}
use fomos.Console.Text.{Text, codes, slice_from, same_text, starts_with}
use fomos.Console.Script.{Script}

pub record Atom : Type 0 where
  pub is_user : Bool
  pub text : Text

pub data Mode : Type 0 where
  shell fomoscript_repl : Mode

-- The fields of `Store` that the keyboard works on; the window stands in Window.
pub record Store (Ctx : Type 0) : Type 0 where
  pub console_history : List Atom
  pub loc : Local
  pub shift : Bool
  pub altg : Bool
  pub script_ctx : Ctx
  pub mode : Mode

-- What is left of the loop over new inputs: it goes on, it is left, or the app returns with its
-- store dropped.
pub data Flow (S : Type 0) : Type 0 where
  go_on : S → Flow S
  leave : S → Flow S
  reset : Flow S

abbrev pub prompt : Mode → Text
prompt shell = codes ">"
prompt fomoscript_repl = codes "fos>"

abbrev pub help : Text
help =
    codes "commands:"
    ++ (10 ∷ codes "    - pid       Display the app pid")
    ++ (10 ∷ codes "    - time      Display the kernel time")
    ++ (10 ∷ codes "    - reset     Clear the app memory")
    ++ (10 ∷ codes "    - lang ..   Set key locale (en,fr)")
    ++ (10 ∷ codes "    - eval ..   Eval fomoscript")
    ++ (10 ∷ codes "    - repl      launch fomoscript REPL")
    ++ (10 ∷ codes "    - help      You are here")
    ++ (10 ∷ codes "    ")

unfoldable pub push_atom : {Ctx : Type 0} → Bool → Text → Store Ctx → Store Ctx
push_atom is_user text s = record s {
  console_history = record { is_user = is_user; text = text } ∷ s.console_history;
}

-- The line that follows a command.
unfoldable pub next_line : {Ctx : Type 0} → Store Ctx → Store Ctx
unfolding push_atom
next_line s = push_atom true (prompt s.mode) s

-- What stands after the command: a new line of the user, and the loop is left.
unfoldable pub finish : {Ctx : Type 0} → Option (Store Ctx) → Flow (Store Ctx)
unfolding next_line
finish none = reset
finish (some s) = leave (next_line s)

-- The arms of `match text.as_ref()`.
pub data Command : Type 0 where
  repl show_pid show_time lang_en lang_fr reset_app show_help eval_code unknown : Command

unfoldable pub which_command : Text → Command
unfolding same_text starts_with
which_command text =
    if same_text text (codes ">repl")
    then repl
    else if same_text text (codes ">pid")
    then show_pid
    else if same_text text (codes ">time")
    then show_time
    else if same_text text (codes ">lang en")
    then lang_en
    else if same_text text (codes ">lang fr")
    then lang_fr
    else if same_text text (codes ">reset")
    then reset_app
    else if same_text text (codes ">help")
    then show_help
    else if starts_with text (codes ">eval ")
    then eval_code
    else unknown

-- `ctx.pid` and `ctx.start_time`
pub record AppContext : Type 0 where
  pub pid : ℕ
  pub start_time : ℕ

module _ (script : Script) where
  open script use {
    Ctx, Value, unit, insert_code, parse_next_expr, eval, set_number, set_native, debug, decimal,
    remaining,
  }

  -- `quit` sets the mode of the store.
  unfoldable pub after_eval : Ctx → Bool → Store Ctx → Store Ctx
  after_eval ctx quit s = record s { script_ctx = ctx; mode = if quit then shell else s.mode }

  unfoldable pub say : Text → Store Ctx → Store Ctx
  unfolding push_atom
  say text s = push_atom false text s

  -- Enter in the REPL.
  unfoldable pub run_repl : Text → Store Ctx → Option (Store Ctx)
  unfolding say after_eval slice_from
  run_repl text s = do
    code ← slice_from 4 text
    let (parsed, ctx) = parse_next_expr (insert_code s.script_ctx code)
    elim parsed [
      | none ↦ some (record s { script_ctx = ctx })
      | some e ↦ do
        (v, ctx', quit) ← eval e ctx
        some (say (codes "eval: " ++ debug v) (after_eval ctx' quit s))
    ]

  -- `while let Ok(parent) = store.script_ctx.parse_next_expr()`; fuel of one more than `remaining` is
  -- enough.
  unfoldable pub eval_all : ℕ → Value → Store Ctx → Option (Value × Store Ctx)
  unfolding after_eval
  eval_all zero res s = none
  eval_all (suc fuel) res s =
      let (parsed, ctx) = parse_next_expr s.script_ctx in
      elim parsed [
        | none ↦ some (res, record s { script_ctx = ctx })
        | some e ↦ elim (eval e ctx) [
          | none ↦ none
          | some (v, ctx', quit) ↦ eval_all fuel v (after_eval ctx' quit s)
        ]
      ]

  -- The variables that the command `eval` sets, and its native function.
  unfoldable pub eval_ctx : Text → AppContext → Ctx → Ctx
  eval_ctx code app ctx =
      let time = set_number (insert_code ctx code) "time" app.start_time in
      set_native (set_number time "pid" app.pid) "draw"

  -- The command `eval`.
  unfoldable pub run_eval : Text → AppContext → Store Ctx → Option (Store Ctx)
  unfolding say eval_all slice_from eval_ctx
  run_eval text app s = do
    code ← slice_from 5 text
    let ctx = eval_ctx code app s.script_ctx
    (res, s') ← eval_all (remaining ctx + 1) unit (record s { script_ctx = ctx })
    some (say (codes "eval: " ++ debug res) s')

  -- Enter in the shell; an inner `none` is the reset.
  unfoldable pub run_command : Command → Text → AppContext → Store Ctx → Option (Option (Store Ctx))
  unfolding say run_eval
  run_command repl text app s = some (
      some (record (say (codes "Call quit() to exit the REPL") s) {
        mode = fomoscript_repl;
        script_ctx = set_native s.script_ctx "quit";
      }))
  run_command show_pid text app s = some (some (say (codes "pid: " ++ decimal app.pid) s))
  run_command show_time text app s =
      some (some (say (codes "time: " ++ (decimal app.start_time ++ codes " ms")) s))
  run_command lang_en text app s = some (some (say (codes "ok") (record s { loc = en })))
  run_command lang_fr text app s = some (some (say (codes "ok") (record s { loc = fr })))
  run_command reset_app text app s = some none
  run_command show_help text app s = some (some (say help s))
  run_command eval_code text app s = run_eval text app s >>= λ s'. some (some s')
  run_command unknown text app s = some (some (say (codes "unknown command") s))

  unfoldable pub run_line : Mode → Text → AppContext → Store Ctx → Option (Option (Store Ctx))
  unfolding run_repl run_command which_command
  run_line shell text app s = run_command (which_command text) text app s
  run_line fomoscript_repl text app s = run_repl text s >>= λ s'. some (some s')

  unfoldable pub enter : Text → AppContext → Store Ctx → Option (Flow (Store Ctx))
  unfolding run_line finish
  enter text app s = run_line s.mode text app s >>= λ r. some (finish r)
