-- ===== src/Console/Inputs/Line.antt =====
-- The line of the user as it is typed, erased and run.
use fomos.Common.{
  ℕ, zero, suc, ◌<◌, ◌≡◌, refl, sym, ap, ◌∙◌, Bool, true, false, Option, none, some, List, [], ◌∷◌,
  ◌++◌, map, length, lt→ltb, length-append, replicate, append_assoc, append-nil, arith, ◌==◌,
  Bool-cases, ==_iff, inl, inr, ◌>>=◌,
}
use mathlib.Core.Option
use fomos.Globals.{InputEvent}
use fomos.Console.Keymap.{Local, en, fr, getxmap, symbol, char}
use fomos.Console.Text.{Text, byte_length, pop}
use fomos.Console.Script.{Script}
use fomos.Console.Shell.{Atom, Store, next_line, go_on, AppContext, run_line, finish, enter}
use fomos.Console.Inputs.{
  key_backspace, key_enter, key_left_shift, key_right_alt, update_modifiers, follow, press,
  handle_event, handle_events,
}

-- The layouts and modifiers, one by one.
each_layout :
    (P : Local → Bool → Bool → Type 0)
    → P en true true
      × P en true false
      × P en false true
      × P en false false
      × P fr true true
      × P fr true false
      × P fr false true
      × P fr false false
    → (l : Local) (shift altg : Bool) → P l shift altg
each_layout P h en true true = h.0
each_layout P h en true false = h.1
each_layout P h en false true = h.2
each_layout P h en false false = h.3
each_layout P h fr true true = h.4
each_layout P h fr true false = h.5
each_layout P h fr false true = h.6
each_layout P h fr false false = h.7

abbrev Untyped : ℕ → Type 0
Untyped key = (l : Local) (shift altg : Bool) → char key l shift altg ≡ some none

-- The four keys that the loop treats by name have no character.
pub backspace-Untyped : Untyped key_backspace
unfolding char getxmap symbol
backspace-Untyped = each_layout _ (refl, refl, refl, refl, refl, refl, refl, refl)

enter-Untyped : Untyped key_enter
unfolding char getxmap symbol
enter-Untyped = each_layout _ (refl, refl, refl, refl, refl, refl, refl, refl)

left_shift-Untyped : Untyped key_left_shift
unfolding char getxmap symbol
left_shift-Untyped = each_layout _ (refl, refl, refl, refl, refl, refl, refl, refl)

right_alt-Untyped : Untyped key_right_alt
unfolding char getxmap symbol
right_alt-Untyped = each_layout _ (refl, refl, refl, refl, refl, refl, refl, refl)

other_key :
    (key special c : ℕ) (l : Local) (shift altg : Bool)
    → Untyped special
    → char key l shift altg ≡ some (some c)
    → (key == special) ≡ false
other_key key special c l shift altg none' e = elim (Bool-cases (key == special)) [
  | inr other ↦ other
  | inl same ↦
      let eq = (==_iff key special).0 same in
      absurd (cc (none' l shift altg, e, ap (λ k. char k l shift altg) eq))
]

abbrev pub pressed : ℕ → InputEvent
pressed key = record { trigger = true; key = key }

-- The keys have these characters in a layout with these modifiers.
abbrev pub Types : Local → Bool → Bool → List ℕ → Text → Type 0
Types l shift altg [] [] = Unit
Types l shift altg [] (c ∷ cs) = ⊥
Types l shift altg (key ∷ keys) [] = ⊥
Types l shift altg (key ∷ keys) (c ∷ cs) =
    (char key l shift altg ≡ some (some c)) × Types l shift altg keys cs

after :
    {S : Type 0} (m : Option (Option (Store S))) (rest : Store S → Option (Option (Store S)))
    → ((m >>= (λ r. some (finish r))) >>= (λ flow. follow flow rest))
      ≡ (m >>= (λ r. some (Option.map next_line r)))
unfolding finish follow
after none rest = refl
after (some none) rest = refl
after (some (some s)) rest = refl

replicate-shift :
    (n : ℕ) (e : InputEvent) (es : List InputEvent)
    → e ∷ replicate n e ++ es ≡ replicate n e ++ (e ∷ es)
replicate-shift zero e es = refl
replicate-shift (suc n) e es = ap (λ l. e ∷ l) (replicate-shift n e es)

-- The store with another line of the user.
abbrev pub with_line : {Ctx : Type 0} → Store Ctx → Text → List Atom → Store Ctx
with_line s text before = record s {
  console_history = record { is_user = true; text = text } ∷ before;
}

module _ (script : Script) (app : AppContext) where
  open script use {Ctx}

  type_key_lem :
      (s : Store Ctx) (text : Text) (before : List Atom) (key c : ℕ)
      → char key s.loc s.shift s.altg ≡ some (some c)
      → handle_event script app (pressed key) (with_line s text before)
        ≡ some (go_on (with_line s (text ++ (c ∷ [])) before))
  unfolding handle_event
  type_key_lem s text before key c e =
      let o1 = other_key key key_left_shift c s.loc s.shift s.altg left_shift-Untyped e in
      let o2 = other_key key key_right_alt c s.loc s.shift s.altg right_alt-Untyped e in
      let o3 = other_key key key_enter c s.loc s.shift s.altg enter-Untyped e in
      let o4 = other_key key key_backspace c s.loc s.shift s.altg backspace-Untyped e in
      rw (update_modifiers, o1, o2, o3, e, o4) refl

  type_keys :
      (keys : List ℕ) (cs : Text) (s : Store Ctx) (text : Text) (before : List Atom)
      (es : List InputEvent)
      → Types s.loc s.shift s.altg keys cs
      → handle_events script app (map pressed keys ++ es) (with_line s text before)
        ≡ handle_events script app es (with_line s (text ++ cs) before)
  unfolding handle_events
  type_keys [] [] s text before es h =
      ap (λ t. handle_events script app es (with_line s t before)) (sym (append-nil text))
  type_keys [] (c ∷ cs) s text before es h = absurd h
  type_keys (key ∷ keys) [] s text before es h = absurd h
  type_keys (key ∷ keys) (c ∷ cs) s text before es h =
      rw (handle_events, type_key_lem s text before key c h.0)
        (type_keys keys cs s (text ++ (c ∷ [])) before es h.1
          ∙ ap (λ t. handle_events script app es (with_line s t before))
              (append_assoc text (c ∷ []) cs))

  enter_event :
      (s : Store Ctx) (text : Text) (before : List Atom)
      → s.shift ≡ false
      → handle_event script app (pressed key_enter) (with_line s text before)
        ≡ enter script text app (with_line s text before)
  unfolding handle_event
  enter_event s text before e = rw (press, e) refl

  -- Enter runs the line, and what comes after it is not read.
  pub enter_lem :
      (s : Store Ctx) (text : Text) (before : List Atom) (es : List InputEvent)
      → s.shift ≡ false
      → handle_events script app (pressed key_enter ∷ es) (with_line s text before) ≡ (
          run_line script s.mode text app (with_line s text before)
          >>= (λ r. some (Option.map next_line r)))
  unfolding handle_events enter
  enter_lem s text before es e =
      rw (handle_events, enter_event s text before e)
        (after (run_line script s.mode text app (with_line s text before))
          (λ s'. handle_events script app es s'))

  -- A typed line with Enter: the line is run, with the text that was there and the characters of the
  -- keys, then a new line begins; nothing that comes after Enter is read.
  pub type_line :
      (keys : List ℕ) (cs : Text) (s : Store Ctx) (text : Text) (before : List Atom)
      (es : List InputEvent)
      → s.shift ≡ false
      → Types s.loc s.shift s.altg keys cs
      → handle_events script app
          (map pressed keys ++ (pressed key_enter ∷ es))
          (with_line s text before)
        ≡ (run_line script s.mode (text ++ cs) app (with_line s (text ++ cs) before)
            >>= (λ r. some (Option.map next_line r)))
  type_line keys cs s text before es e h =
      type_keys keys cs s text before (pressed key_enter ∷ es) h
      ∙ enter_lem s (text ++ cs) before es e

  pop-append : (text : Text) (c : ℕ) → pop (text ++ (c ∷ [])) ≡ text
  unfolding pop
  pop-append [] c = refl
  pop-append (a ∷ []) c = refl
  pop-append (a ∷ (b ∷ text)) c = ap (λ t. a ∷ t) (pop-append (b ∷ text) c)

  byte_length-append : (text : Text) (c : ℕ) → 0 < length text → 1 < byte_length (text ++ (c ∷ []))
  unfolding byte_length
  byte_length-append [] c h = absurd (omega arith)
  byte_length-append (a ∷ []) c h = ground arith
  byte_length-append (a ∷ (b ∷ text)) c h =
      ground (arith, byte_length-append (b ∷ text) c (omega arith))

  erase_key :
      (s : Store Ctx) (text : Text) (before : List Atom) (c : ℕ)
      → 0 < length text
      → handle_event script app (pressed key_backspace) (with_line s (text ++ (c ∷ [])) before)
        ≡ some (go_on (with_line s text before))
  unfolding handle_event
  erase_key s text before c h = rw (
    backspace-Untyped s.loc s.shift s.altg,
    lt→ltb _ _ (byte_length-append text c h),
    pop-append text c,
  )

  -- A line that is typed and erased again, with a backspace for each key, leaves the store as it was,
  -- if the line was not empty before.
  pub erase_line :
      (keys : List ℕ) (cs : Text) (s : Store Ctx) (text : Text) (before : List Atom)
      (es : List InputEvent)
      → 0 < length text
      → Types s.loc s.shift s.altg keys cs
      → handle_events script app
          (map pressed keys ++ (replicate (length keys) (pressed key_backspace) ++ es))
          (with_line s text before)
        ≡ handle_events script app es (with_line s text before)
  unfolding handle_events
  erase_line [] [] s text before es h t = refl
  erase_line [] (c ∷ cs) s text before es h t = absurd t
  erase_line (key ∷ keys) [] s text before es h t = absurd t
  erase_line (key ∷ keys) (c ∷ cs) s text before es h t =
      rw
        (
          handle_events,
          type_key_lem s text before key c t.0,
          replicate-shift (length keys) (pressed key_backspace) es,
        )
        (erase_line keys cs s (text ++ (c ∷ [])) before (pressed key_backspace ∷ es)
            (omega (arith, length-append text (c ∷ []))) t.1
          ∙ rw (handle_events, erase_key s text before c h) refl)
