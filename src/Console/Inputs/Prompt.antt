-- ===== src/Console/Inputs/Prompt.antt =====
-- The line of the user begins as the prompt does: the invariant, and what one key does to it.
pub mod Events
use fomos.Common.{
  ℕ, zero, suc, ◌+◌, ◌<◌, ◌≡◌, refl, sym, ap, ◌∙◌, Bool, true, false, not, ◌&&◌, Option, none, some,
  List, [], ◌∷◌, ◌++◌, arith, ◌==◌, ltb, if◌then◌else◌, Bool-cases, ==_iff, inl, inr, ◌>>=◌,
  if_true, if_false,
}
use fomos.Globals.{InputEvent}
use fomos.Console.Keymap.Layout.{char_total}
use fomos.Console.Text.{Text, codes, byte_length, utf8_width, slice_from, pop, starts_with}
use fomos.Console.Script.{Script}
use fomos.Console.Shell.{
  Atom, Mode, shell, fomoscript_repl, Store, next_line, Flow, go_on, leave, reset, finish,
  AppContext, push_atom, say, eval_ctx, after_eval, Command, repl, show_pid, show_time, lang_en,
  lang_fr, reset_app, show_help, eval_code, unknown, which_command, eval_all, run_eval, run_command,
  run_line, enter,
}
use fomos.Console.Inputs.{
  key_enter, key_backspace, update_modifiers, backspace, add_char, type_key, follow, press,
  handle_event, handle_events,
}

abbrev pub first_char : Mode → ℕ
first_char shell = b'>'
first_char fomoscript_repl = b'f'

-- The last atom is the line of the user, and begins as the prompt of the mode does.
abbrev pub HasPrompt : {Ctx : Type 0} → Store Ctx → Type 0
HasPrompt s =
    (rest : Text) × (before : List Atom) × (s.console_history
      ≡ record { is_user = true; text = first_char s.mode ∷ rest } ∷ before)

pub next_line-HasPrompt : {Ctx : Type 0} (s : Store Ctx) → HasPrompt (next_line s)
unfolding next_line
next_line-HasPrompt s = go s.mode refl
  where
    go : (m : Mode) → s.mode ≡ m → HasPrompt (next_line s)
    go shell e = ([], s.console_history, rw e refl)
    go fomoscript_repl e = (codes "os>", s.console_history, rw e refl)

pub starts_with-append :
    (text ps : Text) → starts_with text ps ≡ true → (t : Text) × (text ≡ ps ++ t)
unfolding starts_with
starts_with-append text [] h = (text, refl)
starts_with-append [] (p ∷ ps) h = cc
starts_with-append (c ∷ text) (p ∷ ps) h = elim (Bool-cases (c == p)) [
  | inl same ↦
      let (t, e) = starts_with-append text ps (rw same at h) in
      (t, ap (λ k. k ∷ text) ((==_iff c p).0 same) ∙ ap (λ l. p ∷ l) e)
  | inr other ↦ cc (h, other)
]

backspace_first :
    (key p : ℕ) (rest : Text)
    → utf8_width p ≡ 1
    → (rest' : Text) × (backspace key (p ∷ rest) ≡ p ∷ rest')
unfolding backspace pop byte_length
backspace_first key p [] w = elim (Bool-cases (key == key_backspace)) [
  | inl same ↦ ([], rw same (ground arith))
  | inr other ↦ ([], rw other refl)
]
backspace_first key p (q ∷ rest) w = elim (Bool-cases (key == key_backspace)) [
  | inr other ↦ (q ∷ rest, rw other refl)
  | inl same ↦ elim (Bool-cases (ltb 1 (byte_length (p ∷ (q ∷ rest))))) [
    | inl long ↦ (pop (q ∷ rest), rw (same, long) refl)
    | inr short ↦ (q ∷ rest, rw (same, short) refl)
  ]
]

add_char_first :
    (key p : ℕ) (shift : Bool) (c : Option ℕ) (rest : Text)
    → (rest' : Text) × (add_char key shift c (p ∷ rest) ≡ p ∷ rest')
unfolding add_char
add_char_first key p shift (some c) rest = (rest ++ (c ∷ []), refl)
add_char_first key p shift none rest = elim (Bool-cases (key == key_enter && shift)) [
  | inl line_break ↦ (rest ++ (10 ∷ []), rw line_break refl)
  | inr other ↦ (rest, rw other refl)
]

pub first-width : (m : Mode) → utf8_width (first_char m) ≡ 1
first-width shell = refl
first-width fomoscript_repl = refl

-- A pressed key other than Enter leaves the first character of the line.
pub type_key_first :
    {Ctx : Type 0} (key p : ℕ) (s : Store Ctx) (rest : Text)
    → utf8_width p ≡ 1
    → (rest' : Text) × (type_key key s (p ∷ rest) ≡ some (p ∷ rest'))
unfolding type_key
type_key_first key p s rest w =
    let (c, found) = char_total key s.loc s.shift s.altg in
    let (rest1, e1) = backspace_first key p rest w in
    let (rest2, e2) = add_char_first key p s.shift c rest1 in (rest2, rw (found, e1, e2) refl)

-- What becomes of a store: nothing of it, or a store with a prompt.
abbrev pub Kept : {Ctx : Type 0} → Option (Store Ctx) → Type 0
Kept none = Unit
Kept (some s) = HasPrompt s

eval_arm :
    (b1 b2 b3 b4 b5 b6 b7 b8 : Bool)
    → (if b1
        then repl
        else if b2
        then show_pid
        else if b3
        then show_time
        else if b4
        then lang_en
        else if b5
        then lang_fr
        else if b6
        then reset_app
        else if b7
        then show_help
        else if b8
        then eval_code
        else unknown)
      ≡ eval_code
    → b8 ≡ true
eval_arm b1 b2 b3 b4 b5 b6 b7 b8 h = ground arith

pub which_command-eval :
    (text : Text) → which_command text ≡ eval_code → starts_with text (codes ">eval ") ≡ true
unfolding which_command
which_command-eval text h = eval_arm _ _ _ _ _ _ _ _ h

pub slice_eval : (t : Text) → slice_from 5 (codes ">eval " ++ t) ≡ some (b' ' ∷ t)
unfolding slice_from
slice_eval t = refl
