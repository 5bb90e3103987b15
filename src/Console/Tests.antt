-- ===== src/Console/Tests.antt =====
-- The keyboard layouts on concrete keys.
use fomos.Common.{ℕ, ◌≡◌, ◌≢◌, refl, false, some, arith}
use fomos.Console.Keymap.{Local, getxmap, char, symbol}
use fomos.Console.Keymap.Layout.{char_injective, period_untyped}

key_a : char 30 Local.en false false ≡ some (some b'a')
unfolding char getxmap symbol
key_a = refl

french_m : char 39 Local.fr false false ≡ some (some b'm')
unfolding char getxmap symbol
french_m = refl

char_injective_example : ◌≡◌ {A = ℕ} 30 30
char_injective_example = char_injective 30 30 b'a' (omega arith) (omega arith) key_a key_a

period_untyped_example : char 52 Local.en false false ≢ some (some b'.')
period_untyped_example = period_untyped 52 Local.en false false
