-- ===== src/Console/Keymap.antt =====
-- The keyboard layouts of app_console/src/st.rs: `Local`, `getxmap` and `Key::char`. A key is its
-- code, the discriminant of `Key` (`as usize`), and a character its code point.
pub mod Rows0
pub mod Rows1
pub mod Rows2
pub mod Rows3
pub mod Rows4
pub mod Rows5
pub mod Columns
pub mod Layout
use Prim.Native.Char.{code}
use Prim.Native.String.{String, len}
use text.Mathlib.Text
use fomos.Common.{
  ℕ, ◌+◌, ◌*◌, Bool, true, false, Option, none, some, List, [], ◌∷◌, ◌++◌, ◌==◌, leb, get_elem?,
  if◌then◌else◌, ◌>>=◌,
}
use Rows0.{xmap_0, xmap_1}
use Rows1.{xmap_2, xmap_3}
use Rows2.{xmap_4, xmap_5}
use Rows3.{xmap_6, xmap_7}
use Rows4.{xmap_8, xmap_9}
use Rows5.{xmap_10}

pub data Local : Type 0 where
  en : Local
  fr : Local

abbrev pub xmap : List String
xmap =
    xmap_0 ++ xmap_1 ++ xmap_2 ++ xmap_3 ++ xmap_4 ++ xmap_5 ++ xmap_6 ++ xmap_7 ++ xmap_8 ++ xmap_9
    ++ xmap_10

-- The column of a row that a layout and the modifiers select.
abbrev pub local_offset : Local → ℕ
local_offset Local.en = 2
local_offset Local.fr = 0

abbrev pub offset : Local → Bool → Bool → ℕ
offset loc shift altg = if altg then 4 else (if shift then 1 else 0) + local_offset loc

-- `none` is the panic of an index outside the table.
unfoldable pub getxmap : Local → ℕ → Bool → Bool → Option String
getxmap loc code shift altg = get_elem? xmap (code * 6 + offset loc shift altg)

-- The arms of `match s` in `Key::char`.
abbrev pub names : List (String × ℕ)
names =
    ("minus", b'-')
    ∷ ("plus", b'+')
    ∷ ("equal", b'=')
    ∷ ("space", b' ')
    ∷ ("bracketleft", b'[')
    ∷ ("bracketright", b']')
    ∷ ("braceleft", b'{')
    ∷ ("braceright", b'}')
    ∷ ("parenleft", b'(')
    ∷ ("parenright", b')')
    ∷ ("less", b'<')
    ∷ ("greater", b'>')
    ∷ ("comma", b',')
    ∷ ("asterisk", b'*')
    ∷ ("slash", b'/')
    ∷ ("colon", b':')
    ∷ ("percent", b'%')
    ∷ ("semicolon", b';')
    ∷ ("question", b'?')
    ∷ ("quotedbl", b'"')
    ∷ ("apostrophe", 39)
    ∷ ("twosuperior", 178)
    ∷ ("exclam", b'!')
    ∷ []

abbrev pub lookup : String → List (String × ℕ) → Option ℕ
lookup s [] = none
lookup s ((name, c) ∷ rest) = if Text.◌==◌ s name then some c else lookup s rest

abbrev pub first : String → Option ℕ
first String.[] = none
first (String.◌∷◌ c s) = some (code c)

-- What `Key::char` makes of an entry of the table.
unfoldable pub symbol : String → Option ℕ
symbol s = if len s == 1 then first s else lookup s names

-- `none` is a panic, `some none` the `None` of `Key::char`.
unfoldable pub char : ℕ → Local → Bool → Bool → Option (Option ℕ)
unfolding getxmap symbol
char key loc shift altg =
    if leb 255 key then some none else getxmap loc key shift altg >>= λ s. some (symbol s)
