-- ===== src/Apps/Stores.antt =====
-- The stores of the apps: what the calls of one app make of the store of another.
use fomos.Common.{
  ℕ, ◌<◌, ◌≡◌, refl, sym, ap, ap₂, subst, ◌∙◌, Option, none, some, List, [], ◌∷◌, map, foldl, All,
}
use fomos.Globals
use fomos.Globals.{Input, InputEvent, handle_all}
use fomos.Globals.Valid.{IsValid, step-IsValid, handle-Handled}
use fomos.Apps.{Context, App, Kernel, call_apps, next_frame, frames}

-- The input that each of the frames reads, when the events come in between them.
unfoldable pub inputs : Input → List (List InputEvent) → List Input
inputs input [] = []
inputs input (events ∷ later) = input ∷ elim (handle_all (Globals.step input) events) [
  | none ↦ []
  | some input' ↦ inputs input' later
]

abbrev pub AreKeys : List InputEvent → Type 0
AreKeys events = All (λ e. e.key < 1024) events

pub handle_all-total :
    (input : Input) (events : List InputEvent)
    → IsValid input
    → AreKeys events
    → (input' : Input) × (handle_all input events ≡ some input') × IsValid input'
unfolding handle_all
handle_all-total input [] v keys = (input, refl, v)
handle_all-total input (e ∷ events) v (key, keys) =
    let (mid, first, handled) = handle-Handled input e.key e.trigger v key in
    let (input', rest, v') = handle_all-total mid events handled.valid keys in
    (input', rw first rest, v')

module _ {Store World : Type 0} (global_time_ms : World → ℕ)
    (next : ℕ → Input → Option Store → Option Store) where
  -- What the app with this id makes of its store depends on nothing else but the input.
  abbrev pub IsPrivate : App Store World → Type 0
  IsPrivate app =
      (ctx : Context Store World) → (app.func ctx).1.store ≡ next ctx.pid ctx.input ctx.store

  -- The app after it was called for each of the inputs, with no other app beside it.
  unfoldable pub alone : List Input → App Store World → App Store World
  alone is app = record app { store = foldl (λ store input. next app.pid input store) app.store is }

  call_apps_lem :
      (input : Input) (apps : List (App Store World)) (slot : Option Store) (world : World)
      → All IsPrivate apps
      → slot ≡ none
      → ((call_apps global_time_ms input apps slot world).0 ≡ map (alone (input ∷ [])) apps)
        × ((call_apps global_time_ms input apps slot world).1 ≡ none)
  unfolding call_apps alone
  call_apps_lem input [] slot world private empty = (refl, empty)
  call_apps_lem input (app ∷ apps) slot world (own, others) empty =
      let ctx : Context Store World = record {
        version = 1;
        start_time = global_time_ms world;
        pid = app.pid;
        store = app.store;
        input = input;
        world = world;
      } in
      let (later, gone) = call_apps_lem input apps none (app.func ctx).1.world others refl in
      (ap₂ (λ store l. record app { store = store } ∷ l) (own ctx) later, gone)

  alone-IsPrivate :
      (is : List Input) (apps : List (App Store World))
      → All IsPrivate apps
      → All IsPrivate (map (alone is) apps)
  unfolding alone
  alone-IsPrivate is [] private = tt
  alone-IsPrivate is (app ∷ apps) (own, others) = (own, alone-IsPrivate is apps others)

  alone_twice :
      (i : Input) (is : List Input) (apps : List (App Store World))
      → map (alone is) (map (alone (i ∷ [])) apps) ≡ map (alone (i ∷ is)) apps
  unfolding alone
  alone_twice i is [] = refl
  alone_twice i is (app ∷ apps) = ap (λ l. alone (i ∷ is) app ∷ l) (alone_twice i is apps)

  alone_never : (apps : List (App Store World)) → apps ≡ map (alone []) apps
  unfolding alone
  alone_never [] = refl
  alone_never (app ∷ apps) = ap (λ l. app ∷ l) (alone_never apps)

  -- The kernel after a frame, with the input that the drivers leave.
  abbrev after_frame : Kernel Store World → Input → Kernel Store World
  after_frame k input =
      let (apps', slot', world') = call_apps global_time_ms k.input k.apps k.slot k.world in
      record { apps = apps'; slot = slot'; world = world'; input = input }

  next_frame_lem :
      (k : Kernel Store World) (events : List InputEvent) (input' : Input)
      → handle_all (Globals.step k.input) events ≡ some input'
      → next_frame global_time_ms k events ≡ some (after_frame k input')
  unfolding next_frame
  next_frame_lem k events input' taken = rw taken

  -- Apps whose stores depend on nothing else but the input are called in every frame without a
  -- panic, with events of keys below 1024 in between, and each has in the end the store that it
  -- would have with no app beside it; none is left in the slot that the contexts share.
  pub frames_alone :
      (k : Kernel Store World) (events : List (List InputEvent))
      → IsValid k.input
      → All AreKeys events
      → All IsPrivate k.apps
      → k.slot ≡ none
      → (k' : Kernel Store World) × (frames global_time_ms k events ≡ some k')
        × (k'.apps ≡ map (alone (inputs k.input events)) k.apps)
        × (k'.slot ≡ none)
  unfolding frames inputs
  frames_alone k [] v keys private empty = (k, refl, alone_never k.apps, empty)
  frames_alone k (events ∷ later) v (first, rest) private empty =
      let (input', taken, v') =
        handle_all-total (Globals.step k.input) events (step-IsValid k.input v) first in
      let (called, gone) = call_apps_lem k.input k.apps k.slot k.world private empty in
      let still =
        subst (λ l. All IsPrivate l) (sym called) (alone-IsPrivate (k.input ∷ []) k.apps private) in
      let (k', run, apps', slot') = frames_alone (after_frame k input') later v' rest still gone in
      (
        k',
        rw (next_frame_lem k events input' taken) run,
        rw taken (
            apps'
            ∙ ap (map (alone (inputs input' later))) called
            ∙ alone_twice k.input (inputs input' later) k.apps),
        slot',
      )
