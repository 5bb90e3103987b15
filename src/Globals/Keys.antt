-- ===== src/Globals/Keys.antt =====
-- bootloader/kernel/src/globals.rs: `KeyState`, the state of one key within a frame.
use fomos.Common.{
  ℕ, zero, suc, ◌%◌, ◌≡◌, refl, ap, ◌∙◌, Bool, true, false, not, List, [], ◌∷◌, arith, leb,
}

pub data KeyState : Type 0 where
  off off_from_on off_transient_on on_from_off on_transient_off on : KeyState

-- The discriminant, which is what an app reads as a byte.
unfoldable pub to_u8 : KeyState → ℕ
to_u8 off = 0
to_u8 off_from_on = 1
to_u8 off_transient_on = 2
to_u8 on_from_off = 128
to_u8 on_transient_off = 129
to_u8 on = 130

unfoldable pub handle_incoming_state : KeyState → Bool → KeyState
handle_incoming_state off true = on_from_off
handle_incoming_state on false = off_from_on
handle_incoming_state off_from_on true = on_transient_off
handle_incoming_state on_from_off false = off_transient_on
handle_incoming_state _ false = off
handle_incoming_state _ true = on

unfoldable pub step : KeyState → KeyState
step off_transient_on = off
step off_from_on = off
step on_from_off = on
step on_transient_off = on
step off = off
step on = on

-- The events of one frame, in order.
unfoldable pub handle_frame : KeyState → List Bool → KeyState
handle_frame s [] = s
handle_frame s (b ∷ bs) = handle_frame (handle_incoming_state s b) bs

-- The test that the apps make: a key is held down if its byte is at least 128.
abbrev pub is_pressed : KeyState → Bool
is_pressed s = leb 128 (to_u8 s)

abbrev settled : Bool → KeyState
settled true = on
settled false = off

abbrev last_or : Bool → List Bool → Bool
last_or b [] = b
last_or b (c ∷ cs) = last_or c cs

pub handle-is_pressed : (s : KeyState) (b : Bool) → is_pressed (handle_incoming_state s b) ≡ b
unfolding handle_incoming_state to_u8
handle-is_pressed s b = ground arith

frame-is_pressed :
    (s : KeyState) (bs : List Bool) → is_pressed (handle_frame s bs) ≡ last_or (is_pressed s) bs
unfolding handle_frame
frame-is_pressed s [] = refl
frame-is_pressed s (b ∷ bs) =
    frame-is_pressed (handle_incoming_state s b) bs ∙ ap (λ p. last_or p bs) (handle-is_pressed s b)

step-settled : (s : KeyState) → step s ≡ settled (is_pressed s)
unfolding step to_u8
step-settled s = ground arith

-- After the events of a frame and the step that ends it, a key is settled: it is `On` if its last
-- event was a press, `Off` if that was a release, and with no event as it was held before.
pub step-handle_frame :
    (s : KeyState) (bs : List Bool) → step (handle_frame s bs) ≡ settled (last_or (is_pressed s) bs)
step-handle_frame s bs = step-settled (handle_frame s bs) ∙ ap settled (frame-is_pressed s bs)

-- Presses and releases that alternate, as many as the number says, from a released key.
abbrev toggles : Bool → ℕ → List Bool
toggles b zero = []
toggles b (suc n) = b ∷ toggles (not b) n

abbrev cycle : ℕ → KeyState
cycle zero = off
cycle (suc zero) = on_from_off
cycle (suc (suc zero)) = off_transient_on
cycle (suc (suc (suc zero))) = on
cycle (suc (suc (suc (suc zero)))) = off_from_on
cycle _ = on_transient_off

-- Within one frame a key that starts released and then alternates between press and release goes
-- round the six states, in the order Off, OnFromOff, OffTransientOn, On, OffFromOn, OnTransientOff.
pub handle_frame-toggles : (n : ℕ) → handle_frame off (toggles true n) ≡ cycle (n % 6)
unfolding handle_frame handle_incoming_state
handle_frame-toggles zero = refl
handle_frame-toggles (suc zero) = refl
handle_frame-toggles (suc (suc zero)) = refl
handle_frame-toggles (suc (suc (suc zero))) = refl
handle_frame-toggles (suc (suc (suc (suc zero)))) = refl
handle_frame-toggles (suc (suc (suc (suc (suc zero))))) = refl
handle_frame-toggles (suc (suc (suc (suc (suc (suc n)))))) =
    handle_frame-toggles n ∙ ap cycle (omega arith)
