-- ===== src/Apps/Tests.antt =====
-- The loop over the apps on two apps: one that counts the frames in which it is called, and one that
-- keeps the number of events and writes into a shared counter of the world.
use fomos.Common.{
  ℕ, zero, suc, ◌+◌, ◌≡◌, refl, true, false, Option, none, some, List, [], ◌∷◌, map, All, arith,
}
use fomos.Globals.{Input, InputEvent, new}
use fomos.Globals.Valid.{new-IsValid}
use fomos.Apps.{Context, App, Kernel, frames}
use fomos.Apps.Stores.{inputs, AreKeys, alone, frames_alone}

abbrev count_frames : Option ℕ → Option ℕ
count_frames none = some 1
count_frames (some n) = some (n + 1)

abbrev next : ℕ → Input → Option ℕ → Option ℕ
next zero input store = count_frames store
next (suc pid) input store = some input.history_last_index

abbrev run : Context ℕ ℕ → ℕ × Context ℕ ℕ
run ctx = (0, record ctx { store = next ctx.pid ctx.input ctx.store; world = ctx.world + 1 })

abbrev app : ℕ → App ℕ ℕ
app pid = record { code = []; func = run; pid = pid; store = none }

abbrev kernel : Kernel ℕ ℕ
kernel = record { apps = app 0 ∷ (app 1 ∷ []); slot = none; world = 0; input = new }

abbrev pressed_a : InputEvent
pressed_a = record { trigger = true; key = 30 }

abbrev released_a : InputEvent
released_a = record { trigger = false; key = 30 }

abbrev events : List (List InputEvent)
events = (pressed_a ∷ (released_a ∷ [])) ∷ ([] ∷ [])

events-AreKeys : All AreKeys events
events-AreKeys = ((omega arith, (omega arith, tt)), (tt, tt))

frames_alone_example :
    (k' : Kernel ℕ ℕ) × (frames (λ t. t) kernel events ≡ some k')
    × (k'.apps ≡ map (alone (λ t. t) next (inputs new events)) kernel.apps)
    × (k'.slot ≡ none)
frames_alone_example =
    frames_alone (λ t. t) next kernel events new-IsValid events-AreKeys
      (λ ctx. refl, (λ ctx. refl, tt)) refl
