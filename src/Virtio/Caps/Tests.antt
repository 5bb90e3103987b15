-- ===== src/Virtio/Caps/Tests.antt =====
-- The capabilities of a device with its structures in bar 4.
use fomos.Common.{
  ℕ, zero, suc, ◌+◌, ◌*◌, ◌≡◌, ◌≢◌, refl, some, List, [], ◌∷◌, ◌==◌, if◌then◌else◌, arith,
}
use fomos.Pci.{Bar, no_bar, mm}
use fomos.Virtio.Caps.{DeviceType, gpu, device_type, no_caps, found, out_of_fuel, at, scan_caps}
use fomos.Virtio.Caps.Last.{Chain, ends, goes_on, last_caps, type_at, scan_caps-last}

abbrev byte_of : List (ℕ × ℕ) → ℕ → ℕ
byte_of [] off = 0
byte_of ((o, v) ∷ bytes) off = if o == off then v else byte_of bytes off

-- At 64, 80 and 100: the id 9, the next offset, the type and the bar.
abbrev config : ℕ → ℕ
config = byte_of (
    (64, 9)
    ∷ (65, 80)
    ∷ (67, 1)
    ∷ (68, 4)
    ∷ (80, 9)
    ∷ (81, 100)
    ∷ (83, 2)
    ∷ (84, 4)
    ∷ (100, 17)
    ∷ (101, 0)
    ∷ (104, 77)
    ∷ [])

abbrev words : ℕ → ℕ
words off = off * 16

abbrev bars : List Bar
bars = no_bar ∷ no_bar ∷ no_bar ∷ no_bar ∷ mm 0xFE000000 ∷ no_bar ∷ []

abbrev chain : Chain config words (λ a. some (a + 1)) bars 64 (64 ∷ 80 ∷ 100 ∷ [])
chain =
    goes_on 64 (80 ∷ 100 ∷ []) (λ e. absurd (omega arith))
      (goes_on 80 (100 ∷ []) (λ e. absurd (omega arith)) (ends 100 refl))

scan_caps-last_example :
    scan_caps config words (λ a. some (a + 1)) bars 256 64 no_caps
    ≡ found (last_caps config words (λ a. some (a + 1)) bars (64 ∷ 80 ∷ 100 ∷ []))
unfolding type_at fomos.Virtio.Caps.cfg_type_of
scan_caps-last_example =
    scan_caps-last config words (λ a. some (a + 1)) bars 256 64 (64 ∷ 80 ∷ 100 ∷ []) chain
      ((omega arith, (_, refl)), (omega arith, (tt, tt))) (omega arith)

gpu_id : device_type 0x1050 ≡ some gpu
unfolding device_type fomos.Common.Int.◌-ℤ◌
gpu_id = refl
