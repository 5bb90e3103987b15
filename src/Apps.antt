-- ===== src/Apps.antt =====
-- bootloader/kernel/src/app.rs and the loop over the apps in `kernel_main` of
-- bootloader/kernel/src/main.rs. An app is a function of a context; the loading of its code is done
-- once, before the loop.
pub mod Image
pub mod Stores
pub mod Events
mod Tests
use fomos.Common.{ℕ, ◌+◌, Option, none, some, List, [], ◌∷◌, ◌>>=◌}
use fomos.Globals
use fomos.Globals.{Input, InputEvent, handle_all}

-- What the function of an app gets: `store` is what the reference to the static `none` points to,
-- `world` the framebuffer, the log and the memory that the other fields give access to.
pub record Context (Store World : Type 0) : Type 0 where
  pub version : ℕ
  pub start_time : ℕ
  pub pid : ℕ
  pub store : Option Store
  pub input : Input
  pub world : World

pub record App (Store World : Type 0) : Type 0 where
  pub code : List ℕ
  pub func : Context Store World → ℕ × Context Store World
  pub pid : ℕ
  pub store : Option Store

-- The state of the task that runs the apps, with the static `none` as `slot`.
pub record Kernel (Store World : Type 0) : Type 0 where
  pub apps : List (App Store World)
  pub slot : Option Store
  pub world : World
  pub input : Input

module _ {Store World : Type 0} (global_time_ms : World → ℕ) where
  -- Context::new
  unfoldable pub new_context : Input → Option Store → World → Context Store World
  new_context input slot world = record {
    version = 1;
    start_time = global_time_ms world;
    pid = 0;
    store = slot;
    input = input;
    world = world;
  }

  -- App::call
  unfoldable pub call :
      App Store World → Context Store World → ℕ × App Store World × Context Store World
  call app arg =
      let own : Context Store World = record arg { pid = app.pid; store = app.store } in
      let (res, arg') = app.func own in
      (res, record app { store = arg'.store }, record arg' { store = none })

  -- The loop `for app in apps.iter_mut()`.
  unfoldable pub call_apps :
      Input
      → List (App Store World)
      → Option Store
      → World
      → List (App Store World) × Option Store × World
  unfolding new_context call
  call_apps input [] slot world = ([], slot, world)
  call_apps input (app ∷ apps) slot world =
      let (res, app', arg) = call app (new_context input slot world) in
      let (apps', slot', world') = call_apps input apps arg.store arg.world in
      (app' ∷ apps', slot', world')

  -- The body of the loop up to `yield_once`.
  unfoldable pub frame : Kernel Store World → Kernel Store World
  unfolding call_apps
  frame k =
      let (apps', slot', world') = call_apps k.input k.apps k.slot k.world in
      record { apps = apps'; slot = slot'; world = world'; input = Globals.step k.input }

  -- A frame, and the events that the drivers take before the next one.
  unfoldable pub next_frame : Kernel Store World → List InputEvent → Option (Kernel Store World)
  unfolding frame
  next_frame k events =
      let k' = frame k in
      handle_all k'.input events >>= λ input'. some (record k' { input = input' })

  unfoldable pub frames : Kernel Store World → List (List InputEvent) → Option (Kernel Store World)
  unfolding next_frame
  frames k [] = some k
  frames k (events ∷ later) = next_frame k events >>= λ k'. frames k' later
