-- ===== src/Console/Inputs/Repl.antt =====
-- Enter in the REPL cuts the prompt off the line, `&text[4..]`, also where the line is shorter.
use fomos.Common.{
  ℕ, zero, suc, ◌-◌, ◌<◌, ◌≤◌, ◌≡◌, refl, ap, ◌∙◌, false, none, some, List, [], ◌∷◌, ◌++◌,
  replicate, arith, ◌>>=◌,
}
use mathlib.Core.Option
use fomos.Globals.{InputEvent}
use fomos.Console.Text.{Text, byte_length, utf8_width, slice_from, pop}
use fomos.Console.Script.{Script}
use fomos.Console.Shell.{
  Atom, fomoscript_repl, Store, next_line, go_on, AppContext, run_repl, run_line,
}
use fomos.Console.Inputs.{key_enter, key_backspace, backspace, handle_event, handle_events}
use fomos.Console.Inputs.Line.{pressed, with_line, enter_lem, backspace-Untyped}

slice_from-none : (text : Text) (n : ℕ) → byte_length text < n → slice_from n text ≡ none
unfolding slice_from byte_length
slice_from-none text zero h = absurd (omega arith)
slice_from-none [] (suc n) h = refl
slice_from-none (c ∷ text) (suc n) h = ground (arith, slice_from-none text (suc n - utf8_width c))

byte_length-pop : (text : Text) → 0 < byte_length text → byte_length (pop text) < byte_length text
unfolding byte_length pop
byte_length-pop [] h = h
byte_length-pop (c ∷ []) h = h
byte_length-pop (c ∷ (d ∷ text)) h = omega (arith, byte_length-pop (d ∷ text) (ground arith))

byte_length-backspace :
    (text : Text) → byte_length text ≤ 4 → byte_length (backspace key_backspace text) < 4
unfolding backspace
byte_length-backspace text h = ground (arith, byte_length-pop text)

module _ (script : Script) (app : AppContext) where
  open script use {Ctx}

  -- In the REPL, Enter on a line of fewer than four bytes is a panic.
  pub enter_repl_short :
      (s : Store Ctx) (text : Text) (before : List Atom) (es : List InputEvent)
      → s.mode ≡ fomoscript_repl
      → s.shift ≡ false
      → byte_length text < 4
      → handle_events script app (pressed key_enter ∷ es) (with_line s text before) ≡ none
  unfolding run_line run_repl
  enter_repl_short s text before es m e h =
      enter_lem script app s text before es e
      ∙ ap
          (λ k.
            run_line script k text app (with_line s text before)
            >>= (λ r. some (Option.map next_line r)))
          m
      ∙ rw (run_repl, slice_from-none text 4 h) refl

  backspace_event :
      (s : Store Ctx) (text : Text) (before : List Atom)
      → handle_event script app (pressed key_backspace) (with_line s text before)
        ≡ some (go_on (with_line s (backspace key_backspace text) before))
  unfolding handle_event
  backspace_event s text before = rw (backspace-Untyped s.loc s.shift s.altg) refl

  -- Once the prompt of the REPL is erased in part, by backspaces, Enter is a panic.
  pub erased_prompt :
      (n : ℕ) (s : Store Ctx) (text : Text) (before : List Atom) (es : List InputEvent)
      → s.mode ≡ fomoscript_repl
      → s.shift ≡ false
      → byte_length text ≤ 4
      → handle_events script app
          (replicate (suc n) (pressed key_backspace) ++ (pressed key_enter ∷ es))
          (with_line s text before)
        ≡ none
  unfolding handle_events
  erased_prompt zero s text before es m e h =
      rw (handle_events, backspace_event s text before)
        (enter_repl_short s (backspace key_backspace text) before es m e
          (byte_length-backspace text h))
  erased_prompt (suc n) s text before es m e h =
      let shorter = byte_length-backspace text h in
      rw (handle_events, backspace_event s text before)
        (erased_prompt n s (backspace key_backspace text) before es m e (omega arith))
