-- ===== src/Console/Window.antt =====
-- app_console/src/main.rs: the window of the console, how the mouse moves and resizes it, and what is
-- read and written where it is drawn. Coordinates are `usize` and stay below 2 ^ 63, so that `as
-- isize` keeps them.
pub mod Screen
pub mod Drag
use fomos.Common.{
  ℕ, ◌+◌, ◌-◌, ◌*◌, ◌/◌, ◌%◌, ◌^◌, ◌≤◌, ◌<◌, Bool, true, false, ◌&&◌, ◌||◌, not, Option, none, some,
  ltb, leb, ◌==◌, if◌then◌else◌,
}
use fomos.Common.Int.{ℤ, pos, negsuc}

-- `store.resizing`, in the order of its indices.
pub record Resizing : Type 0 where
  pub top : Bool
  pub right : Bool
  pub bottom : Bool
  pub left : Bool

pub record Window : Type 0 where
  pub x : ℕ
  pub y : ℕ
  pub x2 : ℕ
  pub y2 : ℕ
  pub resizing : Resizing
  pub moving : Option (ℕ × ℕ)
  pub active : Bool

-- The pointer, the state of the left button (`keys[272]`) and the size of the framebuffer.
pub record Mouse : Type 0 where
  pub mx : ℕ
  pub my : ℕ
  pub button : ℕ

pub record FbSize : Type 0 where
  pub w : ℕ
  pub h : ℕ

abbrev pub not_resizing : Resizing
not_resizing = record { top = false; right = false; bottom = false; left = false }

abbrev any_resizing : Resizing → Bool
any_resizing r = r.top || r.right || r.bottom || r.left

-- `(a as isize - b as isize).abs() < 10`
near : ℕ → ℕ → Bool
near a b = ltb (a - b + (b - a)) 10

-- A button that is up ends a move.
unfoldable pub release : Mouse → Window → Window
release m win =
    if ltb m.button 128 then record win { resizing = not_resizing; moving = none } else win

within_x : Mouse → Window → Bool
within_x m win = leb win.x m.mx && leb m.mx win.x2

-- The edges under the pointer.
grab_edges : Mouse → Window → Resizing
unfolding near within_x
grab_edges m win = record {
  left = if near win.x m.mx then true else win.resizing.left;
  right = if near win.x2 m.mx then true else win.resizing.right;
  top = if near win.y m.my && within_x m win then true else win.resizing.top;
  bottom = if near win.y2 m.my && within_x m win then true else win.resizing.bottom;
}

grab_inside : Mouse → Window → Window
unfolding within_x
grab_inside m win =
    if any_resizing win.resizing
    then win
    else if within_x m win && leb win.y m.my && leb m.my win.y2
    then record win { moving = some (m.mx, m.my); active = true }
    else record win { active = false }

-- `if ctx.input.keys[272] == 128`: the button has just gone down.
unfoldable pub grab : Mouse → Window → Window
unfolding grab_edges grab_inside
grab m win =
    if m.button == 128 then grab_inside m (record win { resizing = grab_edges m win }) else win

-- `(a as isize + (m as isize - a0 as isize)) as usize`
shift_by : ℕ → ℕ → ℕ → ℕ
shift_by a m a0 = (a + m + (2 ^ 64 - a0)) % 2 ^ 64

unfoldable pub move_with : Mouse → Option (ℕ × ℕ) → Window → Window
unfolding shift_by
move_with m none win = win
move_with m (some (x0, y0)) win = record win {
  x = shift_by win.x m.mx x0;
  x2 = shift_by win.x2 m.mx x0;
  y = shift_by win.y m.my y0;
  y2 = shift_by win.y2 m.my y0;
  moving = some (m.mx, m.my);
}

-- The loop over `store.resizing`.
unfoldable pub resize : Mouse → Window → Window
resize m win = record win {
  y = if win.resizing.top then m.my else win.y;
  x2 = if win.resizing.right then m.mx else win.x2;
  y2 = if win.resizing.bottom then m.my else win.y2;
  x = if win.resizing.left then m.mx else win.x;
}

-- The window is put back onto the screen; `ctx.fb.w - 1` wraps at an empty framebuffer.
unfoldable pub put_back : FbSize → Window → Window
put_back fb win = record win {
  x = if ltb 10000 win.x then 0 else win.x;
  y = if ltb 10000 win.y then 0 else win.y;
  x2 = if leb fb.w win.x2 then (fb.w + (2 ^ 64 - 1)) % 2 ^ 64 else win.x2;
  y2 = if leb fb.h win.y2 then (fb.h + (2 ^ 64 - 1)) % 2 ^ 64 else win.y2;
}

unfoldable pub follow_mouse : Mouse → Window → Window
unfolding release grab move_with resize
follow_mouse m win =
    let grabbed = grab m (release m win) in resize m (move_with m grabbed.moving grabbed)

unfoldable pub update_window : FbSize → Mouse → Window → Window
unfolding follow_mouse put_back
update_window fb m win = put_back fb (follow_mouse m win)

abbrev pub div : ℕ
div = 4

-- Where the loop over the window writes into the framebuffer, and reads the blurred copy.
unfoldable pub pixel_index : FbSize → ℕ → ℕ → ℕ
pixel_index fb x y = x + y * fb.w

unfoldable pub blurred_index : FbSize → ℕ → ℕ → ℕ
blurred_index fb x y = x / div + y / div * (fb.w / div)

clamp : ℤ → ℕ → ℕ
clamp (negsuc n) size = 0
clamp (pos n) size = if leb size (n + 1) then size - 1 else n

-- `get`: the index that it reads for the sizes `wi` and `hi`, which are positive.
unfoldable pub get_index : ℤ → ℤ → ℕ → ℕ → ℕ
unfolding clamp
get_index x y wi hi = clamp x wi + clamp y hi * wi
