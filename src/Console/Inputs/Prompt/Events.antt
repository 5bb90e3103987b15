-- ===== src/Console/Inputs/Prompt/Events.antt =====
-- The events of the keyboard in the shell, one by one.
use fomos.Common.{
  ℕ, zero, suc, ◌+◌, ◌<◌, ◌≡◌, refl, sym, ap, ◌∙◌, Bool, true, false, not, ◌&&◌, Option, none, some,
  List, [], ◌∷◌, ◌++◌, arith, ◌==◌, Bool-cases, inl, inr, ◌>>=◌, if_true, if_false,
}
use fomos.Globals.{InputEvent}
use fomos.Console.Text.{Text, codes, slice_from, starts_with}
use fomos.Console.Script.{Script}
use fomos.Console.Shell.{
  shell, Store, Flow, go_on, leave, reset, finish, AppContext, push_atom, say, eval_ctx, after_eval,
  Command, repl, show_pid, show_time, lang_en, lang_fr, reset_app, show_help, eval_code, unknown,
  which_command, eval_all, run_eval, run_command, run_line, enter,
}
use fomos.Console.Inputs.{key_enter, update_modifiers, follow, press, handle_event, handle_events}
use fomos.Console.Inputs.Prompt.{
  first_char, HasPrompt, next_line-HasPrompt, type_key_first, first-width, Kept, which_command-eval,
  slice_eval, starts_with-append,
}

module _ (script : Script) (app : AppContext)
    (never : (e : script.Expr) (ctx : script.Ctx)
      → (v : script.Value) × (ctx' : script.Ctx) × (quit : Bool) × (script.eval e ctx
          ≡ some (v, ctx', quit))) where
  open script use {
    Ctx, Expr, Value, eval, parse_next_expr, remaining, remaining-parse, remaining-eval,
  }

  -- The loop over the expressions of a command ends.
  eval_all_total :
      (fuel : ℕ) (res : Value) (s : Store Ctx)
      → remaining s.script_ctx < fuel
      → (r : Value × Store Ctx) × (eval_all script fuel res s ≡ some r)
  unfolding eval_all after_eval
  eval_all_total zero res s h = absurd (omega arith)
  eval_all_total (suc fuel) res s h = go (eval_all_total fuel) (parse_next_expr s.script_ctx).0 refl
    where
      go :
          ((v : Value) (s' : Store Ctx)
            → remaining s'.script_ctx < fuel
            → (r : Value × Store Ctx) × (eval_all script fuel v s' ≡ some r))
          → (parsed : Option Expr) → (parse_next_expr s.script_ctx).0 ≡ parsed
          → (r : Value × Store Ctx) × (eval_all script (suc fuel) res s ≡ some r)
      go rec none e =
          ((res, record s { script_ctx = (parse_next_expr s.script_ctx).1 }), rw (eval_all, e) refl)
      go rec (some expr) e =
          let ctx = (parse_next_expr s.script_ctx).1 in
          let (v, ctx', quit, ran) = never expr ctx in
          let parsed = remaining-parse s.script_ctx ctx expr (λ i. (e i, ctx)) in
          let (r, rest) =
            rec v (after_eval script ctx' quit s)
              (omega (arith, parsed, remaining-eval expr ctx ctx' v quit ran)) in
          (r, rw (eval_all, e, ran) rest)

  run_eval_total :
      (text : Text) (s : Store Ctx)
      → starts_with text (codes ">eval ") ≡ true
      → (s' : Store Ctx) × (run_eval script text app s ≡ some s')
  unfolding run_eval say
  run_eval_total text s h =
      let (t, e) = starts_with-append text (codes ">eval ") h in
      let sliced : slice_from 5 text ≡ some (b' ' ∷ t) = ap (slice_from 5) e ∙ slice_eval t in
      let ctx = eval_ctx script (b' ' ∷ t) app s.script_ctx in
      let (r, ran) =
        eval_all_total (remaining ctx + 1) script.unit (record s { script_ctx = ctx })
          (omega arith) in
      (push_atom false (codes "eval: " ++ script.debug r.0) r.1, rw (run_eval, sliced, ran) refl)

  run_command_total :
      (command : Command) (text : Text) (s : Store Ctx)
      → (command ≡ eval_code → starts_with text (codes ">eval ") ≡ true)
      → (r : Option (Store Ctx)) × (run_command script command text app s ≡ some r)
  unfolding run_command
  run_command_total eval_code text s h =
      let (s', ran) = run_eval_total text s (h refl) in (some s', rw ran refl)
  run_command_total repl text s h = (_, refl)
  run_command_total show_pid text s h = (_, refl)
  run_command_total show_time text s h = (_, refl)
  run_command_total lang_en text s h = (_, refl)
  run_command_total lang_fr text s h = (_, refl)
  run_command_total reset_app text s h = (_, refl)
  run_command_total show_help text s h = (_, refl)
  run_command_total unknown text s h = (_, refl)

  -- What a step leaves.
  abbrev AfterStep : Flow (Store Ctx) → Type 0
  AfterStep (go_on s) = HasPrompt s × (s.mode ≡ shell)
  AfterStep (leave s) = HasPrompt s
  AfterStep reset = Unit

  finish_lem : (r : Option (Store Ctx)) → AfterStep (finish r)
  unfolding finish
  finish_lem none = tt
  finish_lem (some s) = next_line-HasPrompt s

  enter_shell :
      (text : Text) (s : Store Ctx) (r : Option (Store Ctx))
      → s.mode ≡ shell
      → run_command script (which_command text) text app s ≡ some r
      → enter script text app s ≡ some (finish r)
  unfolding enter run_line
  enter_shell text s r m ran =
      ap (λ k. run_line script k text app s >>= (λ q. some (finish q))) m
      ∙ ap (λ o. o >>= (λ q. some (finish q))) ran

  press_shell :
      (key : ℕ) (s : Store Ctx)
      → HasPrompt s
      → s.mode ≡ shell
      → (flow : Flow (Store Ctx)) × (press script key app s s.console_history ≡ some flow)
        × AfterStep flow
  unfolding press
  press_shell key s (rest, before, line) m =
      let text = first_char s.mode ∷ rest in
      elim (Bool-cases (key == key_enter && not s.shift)) [
        | inl run ↦
            let (r, ran) =
              run_command_total (which_command text) text s (which_command-eval text) in
            (
              finish r,
              ap (press script key app s) line ∙ rw run (enter_shell text s r m ran),
              finish_lem r,
            )
        | inr other ↦
            let (rest', typed) =
              type_key_first key (first_char s.mode) s rest (first-width s.mode) in
            (
              go_on (record s {
                console_history =
                    record { is_user = true; text = first_char s.mode ∷ rest' } ∷ before;
              }),
              ap (press script key app s) line
                  ∙ rw other (
                      ap
                        (λ o. o >>= λ text'. some (
                          go_on (record s {
                            console_history = record { is_user = true; text = text' } ∷ before;
                          })))
                        typed),
              ((rest', before, refl), m),
            )
      ]

  update_modifiers-kept :
      (event : InputEvent) (s : Store Ctx)
      → ((update_modifiers event s).console_history ≡ s.console_history)
        × ((update_modifiers event s).mode ≡ s.mode)
  unfolding update_modifiers
  update_modifiers-kept event s = ground arith

  handle_event_shell :
      (event : InputEvent) (s : Store Ctx)
      → HasPrompt s
      → s.mode ≡ shell
      → (flow : Flow (Store Ctx)) × (handle_event script app event s ≡ some flow) × AfterStep flow
  unfolding handle_event
  handle_event_shell event s (rest, before, line) m =
      let (same_lines, same_mode) = update_modifiers-kept event s in
      let prompt' : HasPrompt (update_modifiers event s) = (
        rest,
        before,
        same_lines
            ∙ line
            ∙ ap (λ k. record { is_user = true; text = first_char k ∷ rest } ∷ before)
                (sym same_mode),
      ) in
      let m' = same_mode ∙ m in
      elim (Bool-cases event.trigger) [
        | inl down ↦
            let (flow, ran, after) = press_shell event.key (update_modifiers event s) prompt' m' in
            (flow, if_true event.trigger _ _ down ∙ ran, after)
        | inr up ↦ (go_on (update_modifiers event s), if_false event.trigger _ _ up, (prompt', m'))
      ]

  -- In the shell no event panics, whatever the keys: the loop ends with the store dropped or with a
  -- prompt for the user.
  pub handle_events-HasPrompt :
      (es : List InputEvent) (s : Store Ctx)
      → HasPrompt s
      → s.mode ≡ shell
      → (r : Option (Store Ctx)) × (handle_events script app es s ≡ some r) × Kept r
  unfolding handle_events follow
  handle_events-HasPrompt [] s h m = (some s, refl, h)
  handle_events-HasPrompt (e ∷ es) s h m =
      let (flow, ran, after) = handle_event_shell e s h m in
      go (handle_events-HasPrompt es) flow ran after
    where
      go :
          ((s' : Store Ctx)
            → HasPrompt s'
            → s'.mode ≡ shell
            → (r : Option (Store Ctx)) × (handle_events script app es s' ≡ some r) × Kept r)
          → (flow : Flow (Store Ctx)) → handle_event script app e s ≡ some flow
          → AfterStep flow
          → (r : Option (Store Ctx)) × (handle_events script app (e ∷ es) s ≡ some r) × Kept r
      go rec (go_on s') ran (h', m') =
          let (r, rest, kept) = rec s' h' m' in (r, rw (handle_events, ran) rest, kept)
      go rec (leave s') ran h' = (some s', rw (handle_events, ran) refl, h')
      go rec reset ran h' = (none, rw (handle_events, ran) refl, tt)
