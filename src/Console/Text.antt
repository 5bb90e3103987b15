-- ===== src/Console/Text.antt =====
-- The strings of the console application: a `String` is its code points, measured and cut by the
-- bytes of its UTF-8.
use Prim.Native.Char.{code}
use Prim.Native.String.{String}
use fomos.Common.{
  ℕ, zero, suc, ◌+◌, ◌-◌, Bool, true, false, ◌&&◌, Option, none, some, List, [], ◌∷◌, ◌==◌, leb,
  ltb, if◌then◌else◌,
}

abbrev pub Text : Type 0
Text = List ℕ

-- A literal.
abbrev pub codes : String → Text
codes String.[] = []
codes (String.◌∷◌ c s) = code c ∷ codes s

abbrev pub utf8_width : ℕ → ℕ
utf8_width c = if ltb c 0x80 then 1 else if ltb c 0x800 then 2 else if ltb c 0x10000 then 3 else 4

-- String::len
unfoldable pub byte_length : Text → ℕ
byte_length [] = 0
byte_length (c ∷ cs) = utf8_width c + byte_length cs

-- `&text[n..]`: `none` is the panic past the end or inside a character.
unfoldable pub slice_from : ℕ → Text → Option Text
slice_from zero cs = some cs
slice_from (suc n) [] = none
slice_from (suc n) (c ∷ cs) =
    let rest = slice_from (suc n - utf8_width c) cs in
    if leb (utf8_width c) (suc n) then rest else none

-- String::pop
unfoldable pub pop : Text → Text
pop [] = []
pop (c ∷ []) = []
pop (c ∷ (d ∷ cs)) = c ∷ pop (d ∷ cs)

unfoldable pub same_text : Text → Text → Bool
same_text [] [] = true
same_text (a ∷ as') (b ∷ bs) = (a == b) && same_text as' bs
same_text _ _ = false

-- str::starts_with
unfoldable pub starts_with : Text → Text → Bool
starts_with cs [] = true
starts_with [] (p ∷ ps) = false
starts_with (c ∷ cs) (p ∷ ps) = (c == p) && starts_with cs ps
