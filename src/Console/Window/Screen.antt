-- ===== src/Console/Window/Screen.antt =====
-- Where the window stands, is drawn and is read.
use fomos.Common.{ℕ, ◌+◌, ◌*◌, ◌≤◌, ◌<◌, arith}
use fomos.Common.Int.{ℤ, pos, negsuc}
use fomos.Console.Window.{
  Window, Mouse, FbSize, follow_mouse, update_window, put_back, clamp, get_index,
}

pub record IsOnScreen (fb : FbSize) (win : Window) : Type 0 where
  pub x_small : win.x ≤ 10000
  pub y_small : win.y ≤ 10000
  pub x2_fits : win.x2 < fb.w
  pub y2_fits : win.y2 < fb.h

-- A framebuffer that is not empty, with sizes of 64 bits.
pub record IsFb (fb : FbSize) : Type 0 where
  pub wide : 0 < fb.w
  pub high : 0 < fb.h
  pub w_small : fb.w < 0x10000000000000000
  pub h_small : fb.h < 0x10000000000000000

put_back-IsOnScreen : (fb : FbSize) (win : Window) → IsFb fb → IsOnScreen fb (put_back fb win)
unfolding put_back
put_back-IsOnScreen fb win s = ground arith

pub update_window-IsOnScreen :
    (fb : FbSize) (m : Mouse) (win : Window) → IsFb fb → IsOnScreen fb (update_window fb m win)
unfolding update_window
update_window-IsOnScreen fb m win s = put_back-IsOnScreen fb (follow_mouse m win) s

in_row : (x y w h : ℕ) → x < w → y < h → x + y * w < w * h
in_row x y w h p q = grind arith

clamp-lt : (a : ℤ) (size : ℕ) → 0 < size → clamp a size < size
unfolding clamp
clamp-lt (negsuc n) size h = h
clamp-lt (pos n) size h = ground arith

-- The blur reads inside the copy, at whatever coordinates, also negative ones and those beyond the
-- edge.
pub get_index-lt : (x y : ℤ) (wi hi : ℕ) → 0 < wi → 0 < hi → get_index x y wi hi < wi * hi
unfolding get_index
get_index-lt x y wi hi hw hh =
    in_row (clamp x wi) (clamp y hi) wi hi (clamp-lt x wi hw) (clamp-lt y hi hh)
