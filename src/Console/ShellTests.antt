-- ===== src/Console/ShellTests.antt =====
-- The console on concrete keys: a script interpreter that reads one expression and prints nothing.
use fomos.Common.{
  ℕ, zero, suc, ◌+◌, ◌≤◌, ◌<◌, ◌≡◌, refl, Bool, true, false, Option, none, some, List, [], ◌∷◌,
  ◌++◌, map, replicate, arith,
}
use fomos.Globals.{new}
use fomos.Console.Keymap.{en, char, getxmap, symbol}
use fomos.Console.Text.{codes, byte_length}
use fomos.Console.Script.{Script}
use fomos.Console.Shell.{
  shell, fomoscript_repl, Store, next_line, AppContext, run_line, which_command,
}
use fomos.Console.Inputs.{key_enter, key_backspace, handle_events}
use fomos.Console.Inputs.Line.{pressed, with_line, type_line, erase_line}
use fomos.Console.Inputs.Repl.{erased_prompt}
use fomos.Console.Window.{Window, Mouse, FbSize, not_resizing}
use fomos.Console.Window.Drag.{drag, translated, drag_lem}

-- The context is the number of expressions that are left.
abbrev parse : ℕ → Option (Unit {0}) × ℕ
parse zero = (none, 0)
parse (suc n) = (some tt, n)

parse-remaining : (ctx ctx' : ℕ) (e : Unit {0}) → parse ctx ≡ (some e, ctx') → ctx' < ctx
parse-remaining zero ctx' e h = cc
parse-remaining (suc n) ctx' e h = ground arith

abbrev evaluate : Unit {0} → ℕ → Option (Unit {0} × ℕ × Bool)
evaluate e n = some (tt, n, false)

eval-remaining :
    (e : Unit {0}) (ctx ctx' : ℕ) (v : Unit {0}) (quit : Bool)
    → evaluate e ctx ≡ some (v, ctx', quit)
    → ctx' ≤ ctx
eval-remaining e ctx ctx' v quit h = ground arith

abbrev counting : Script
counting = record {
  Ctx = ℕ;
  Expr = Unit;
  Value = Unit;
  new = 0;
  unit = tt;
  insert_code = λ ctx code. ctx + 1;
  parse_next_expr = parse;
  eval = evaluate;
  set_number = λ ctx name n. ctx;
  set_native = λ ctx name. ctx;
  debug = λ v. [];
  decimal = λ n. b'7' ∷ [];
  remaining = λ ctx. ctx;
  remaining-parse = parse-remaining;
  remaining-eval = eval-remaining;
}

abbrev app : AppContext
app = record { pid = 1; start_time = 20 }

abbrev at_prompt : Store ℕ
at_prompt = record {
  console_history = record { is_user = true; text = codes ">" } ∷ [];
  loc = en;
  shift = false;
  altg = false;
  script_ctx = 0;
  mode = shell;
}

-- p, i, d
abbrev pid_keys : List ℕ
pid_keys = 25 ∷ 23 ∷ 32 ∷ []

p_typed : char 25 en false false ≡ some (some b'p')
unfolding char getxmap symbol
p_typed = refl

i_typed : char 23 en false false ≡ some (some b'i')
unfolding char getxmap symbol
i_typed = refl

d_typed : char 32 en false false ≡ some (some b'd')
unfolding char getxmap symbol
d_typed = refl

type_line_example :
    handle_events counting app
      (map pressed pid_keys ++ (pressed key_enter ∷ []))
      (with_line at_prompt (codes ">") [])
    ≡ some (
        some (
          next_line (record at_prompt {
            console_history =
                record { is_user = false; text = codes "pid: 7" }
                ∷ record { is_user = true; text = codes ">pid" }
                ∷ [];
          })))
unfolding run_line which_command
type_line_example =
    type_line counting app pid_keys (codes "pid") at_prompt (codes ">") [] [] refl
      (p_typed, (i_typed, (d_typed, tt)))

erase_line_example :
    handle_events counting app
      (map pressed pid_keys ++ (replicate 3 (pressed key_backspace) ++ []))
      (with_line at_prompt (codes ">") [])
    ≡ handle_events counting app [] (with_line at_prompt (codes ">") [])
erase_line_example =
    erase_line counting app pid_keys (codes "pid") at_prompt (codes ">") [] [] (omega arith)
      (p_typed, (i_typed, (d_typed, tt)))

abbrev in_repl : Store ℕ
in_repl = record at_prompt { mode = fomoscript_repl }

fos_short : byte_length (codes "fos>") ≤ 4
unfolding byte_length
fos_short = omega arith

erased_prompt_example :
    handle_events counting app
      (replicate 1 (pressed key_backspace) ++ (pressed key_enter ∷ []))
      (with_line in_repl (codes "fos>") [])
    ≡ none
erased_prompt_example =
    erased_prompt counting app 0 in_repl (codes "fos>") [] [] refl refl fos_short

abbrev fb : FbSize
fb = record { w = 1600; h = 900 }

abbrev window : Window
window = record {
  x = 100;
  y = 100;
  x2 = 1000;
  y2 = 700;
  resizing = not_resizing;
  moving = none;
  active = true;
}

abbrev clicked : Mouse
clicked = record { mx = 300; my = 120; button = 128 }

drag_lem_example :
    drag fb
      ((350, 100) ∷ (290, 130) ∷ [])
      (record window { resizing = not_resizing; moving = some (300, 120) })
    ≡ translated window (300, 120) (290, 130)
drag_lem_example =
    drag_lem fb window (300, 120) (omega arith) ((350, 100) ∷ (290, 130) ∷ []) (omega arith)
