-- ===== src/Console/Window/Drag.antt =====
-- The window while it is dragged.
use fomos.Common.{
  ℕ, ◌+◌, ◌-◌, ◌≤◌, ◌<◌, ◌≡◌, refl, ap, ◌∙◌, some, List, [], ◌∷◌, All, arith, leb, ltb, false,
}
use fomos.Console.Window.{
  Window, Mouse, FbSize, not_resizing, update_window, follow_mouse, release, grab, move_with,
  resize, put_back, shift_by,
}

-- The frames of a drag: the pointer at these places, the button held since before.
abbrev pub held : ℕ × ℕ → Mouse
held (mx, my) = record { mx = mx; my = my; button = 130 }

unfoldable pub drag : FbSize → List (ℕ × ℕ) → Window → Window
drag fb [] win = win
drag fb (p ∷ ps) win = drag fb ps (update_window fb (held p) win)

-- The window that is held at `p0`, when the pointer has come to (mx, my).
abbrev pub translated : Window → ℕ × ℕ → ℕ × ℕ → Window
translated win p0 p = record win {
  x = win.x + p.0 - p0.0;
  y = win.y + p.1 - p0.1;
  x2 = win.x2 + p.0 - p0.0;
  y2 = win.y2 + p.1 - p0.1;
  resizing = not_resizing;
  moving = some p;
}

-- There it is still on the screen.
pub record Fits (fb : FbSize) (win : Window) (p0 : ℕ × ℕ) (p : ℕ × ℕ) : Type 0 where
  pub left : p0.0 ≤ win.x + p.0
  pub top : p0.1 ≤ win.y + p.1
  pub x_small : win.x + p.0 ≤ 10000 + p0.0
  pub y_small : win.y + p.1 ≤ 10000 + p0.1
  pub x2_fits : win.x2 + p.0 < fb.w + p0.0
  pub y2_fits : win.y2 + p.1 < fb.h + p0.1

-- Corners in order, and sizes of less than 63 bits.
pub record IsProper (fb : FbSize) (win : Window) : Type 0 where
  pub ordered_x : win.x ≤ win.x2
  pub ordered_y : win.y ≤ win.y2
  pub w_small : fb.w < 0x8000000000000000
  pub h_small : fb.h < 0x8000000000000000

module _ (fb : FbSize) (win : Window) (p0 : ℕ × ℕ) (proper : IsProper fb win) where
  shift_by_lem :
      (a p q a0 : ℕ)
      → a0 ≤ a + p
      → a0 ≤ a + q
      → p < 0x8000000000000000
      → a + q < a0 + 0x8000000000000000
      → shift_by (a + p - a0) q p ≡ a + q - a0
  unfolding shift_by
  shift_by_lem a p q a0 h k small less = omega arith

  in_x : (a : ℕ) → a ≤ 10000 → ltb 10000 a ≡ false
  in_x a h = ground arith

  in_x2 : (a b : ℕ) → a < b → leb b a ≡ false
  in_x2 a b h = ground arith

  drag_step :
      (p q : ℕ × ℕ)
      → p.0 < 0x8000000000000000
      → p.1 < 0x8000000000000000
      → Fits fb win p0 p
      → Fits fb win p0 q
      → update_window fb (held q) (translated win p0 p) ≡ translated win p0 q
  unfolding update_window follow_mouse release grab move_with resize put_back
  drag_step p q sx sy f g =
      rw
        (
          shift_by_lem win.x p.0 q.0 p0.0 (omega arith) (omega arith) sx (omega arith),
          shift_by_lem win.x2 p.0 q.0 p0.0 (omega arith) (omega arith) sx (omega arith),
          shift_by_lem win.y p.1 q.1 p0.1 (omega arith) (omega arith) sy (omega arith),
          shift_by_lem win.y2 p.1 q.1 p0.1 (omega arith) (omega arith) sy (omega arith),
          in_x (win.x + q.0 - p0.0) (omega arith),
          in_x (win.y + q.1 - p0.1) (omega arith),
          in_x2 (win.x2 + q.0 - p0.0) fb.w (omega arith),
          in_x2 (win.y2 + q.1 - p0.1) fb.h (omega arith),
        )
        refl

  abbrev pub AllFit : List (ℕ × ℕ) → Type 0
  AllFit = All (λ p. (p.0 < 0x8000000000000000) × (p.1 < 0x8000000000000000) × Fits fb win p0 p)

  abbrev pub last_or : ℕ × ℕ → List (ℕ × ℕ) → ℕ × ℕ
  last_or p [] = p
  last_or p (q ∷ qs) = last_or q qs

  drag_steps :
      (p : ℕ × ℕ) (ps : List (ℕ × ℕ))
      → AllFit (p ∷ ps)
      → drag fb ps (translated win p0 p) ≡ translated win p0 (last_or p ps)
  unfolding drag
  drag_steps p [] h = refl
  drag_steps p (q ∷ qs) h =
      ap (drag fb qs) (drag_step p q h.0.0 h.0.1 h.0.2 h.1.0.2) ∙ drag_steps q qs h.1

  at_start : record win { resizing = not_resizing; moving = some p0 } ≡ translated win p0 p0
  at_start =
      let back : (a b : ℕ) → a ≡ a + b - b = λ a b. omega arith in
      λ i. record win {
        x = back win.x p0.0 i;
        y = back win.y p0.1 i;
        x2 = back win.x2 p0.0 i;
        y2 = back win.y2 p0.1 i;
        resizing = not_resizing;
        moving = some p0;
      }

  -- A window that is held at `p0`, with no edge grabbed, and dragged over the points `ps`, at each of
  -- which it is still on the screen, ends with its size, moved by the last point less `p0`, wherever
  -- the pointer was in between.
  pub drag_lem :
      (ps : List (ℕ × ℕ))
      → AllFit (p0 ∷ ps)
      → drag fb ps (record win { resizing = not_resizing; moving = some p0 })
        ≡ translated win p0 (last_or p0 ps)
  drag_lem ps h = ap (drag fb ps) at_start ∙ drag_steps p0 ps h
