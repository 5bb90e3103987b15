-- ===== src/Console/Keymap/Layout.antt =====
-- What the keyboard layouts of app_console/src/st.rs let the user type: `Key::char` on every key.
use fomos.Common.{
  ℕ, zero, suc, ◌+◌, ◌-◌, ◌≤◌, ◌<◌, ◌≡◌, refl, ap, ◌∙◌, sym, ◌≢◌, Bool, true, false, ◌&&◌, Option,
  none, some, List, [], ◌∷◌, map, ◌==◌, leb, length, length-map, get_elem?, get_elem?-some, arith,
  Bool-cases, ◌>>=◌, inl, inr, subst, ==_iff,
}
use fomos.Console.Keymap.{Local, xmap, getxmap, char, symbol, offset}
use fomos.Console.Keymap.Columns.{
  column, column-get, elem, elem-get, distinct, distinct-get, capitals, capitals-get, position,
  position-get, position-length,
}

xmap_full : length xmap ≡ 1530
xmap_full = refl

offset_le : (loc : Local) (shift altg : Bool) → offset loc shift altg < 6
offset_le Local.en true true = omega arith
offset_le Local.en true false = omega arith
offset_le Local.en false true = omega arith
offset_le Local.en false false = omega arith
offset_le Local.fr true true = omega arith
offset_le Local.fr true false = omega arith
offset_le Local.fr false true = omega arith
offset_le Local.fr false false = omega arith

-- The characters of a layout with these modifiers, by key.
chars : ℕ → List (Option ℕ)
chars o = map symbol (column o xmap)

get_elem?-map {ℓ κ} :
    {A : Type ℓ} {B : Type κ} (f : A → B) (xs : List A) (i : ℕ)
    → get_elem? (map f xs) i ≡ (get_elem? xs i >>= λ x. some (f x))
get_elem?-map f [] i = refl
get_elem?-map f (x ∷ xs) zero = refl
get_elem?-map f (x ∷ xs) (suc i) = get_elem?-map f xs i

-- Every column has an entry for each of the 255 codes.
column_full : (o : ℕ) → o < 6 → length (column o xmap) ≡ 255
unfolding column
column_full zero h = refl
column_full (suc zero) h = refl
column_full (suc (suc zero)) h = refl
column_full (suc (suc (suc zero))) h = refl
column_full (suc (suc (suc (suc zero)))) h = refl
column_full (suc (suc (suc (suc (suc zero))))) h = refl
column_full (suc (suc (suc (suc (suc (suc o)))))) h = absurd (omega arith)

chars_full : (o : ℕ) → o < 6 → length (chars o) ≡ 255
unfolding chars
chars_full o h = length-map (column o xmap) symbol ∙ column_full o h

char-chars :
    (loc : Local) (shift altg : Bool) (key : ℕ)
    → key < 255
    → char key loc shift altg ≡ get_elem? (chars (offset loc shift altg)) key
unfolding char getxmap chars
char-chars loc shift altg key h =
    let small : leb 255 key ≡ false = ground arith in
    let entry =
      column-get (offset loc shift altg) xmap key (offset_le loc shift altg)
        (rw (column_full (offset loc shift altg) (offset_le loc shift altg)) h) in
    rw small (ap (λ e. e >>= λ s. some (symbol s)) entry ∙ sym (get_elem?-map symbol _ key))

-- For every key, layout and modifiers `Key::char` returns: the index into `xmap` is in bounds for
-- each of the 255 codes it looks up, and for the codes from 255 it answers `None`.
pub char_total :
    (key : ℕ) (loc : Local) (shift altg : Bool)
    → (c : Option ℕ) × (char key loc shift altg ≡ some c)
unfolding char getxmap chars
char_total key loc shift altg = elim (Bool-cases (leb 255 key)) [
  | inl e ↦ rw e (none, refl)
  | inr e ↦
      let small : key < 255 = ground (arith, e) in
      let full =
        length-map (column (offset loc shift altg) xmap) symbol
        ∙ column_full (offset loc shift altg) (offset_le loc shift altg) in
      let found =
        get_elem?-some (chars (offset loc shift altg)) key
          (rw (chars_full (offset loc shift altg) (offset_le loc shift altg)) small) in
      (found.0, char-chars loc shift altg key small ∙ found.1)
]

en_distinct : distinct (chars 2) ≡ true
unfolding distinct elem chars column symbol
en_distinct = refl

-- In the English layout without modifiers no two keys give the same character.
pub char_injective :
    (key key' c : ℕ)
    → key < 255
    → key' < 255
    → char key Local.en false false ≡ some (some c)
    → char key' Local.en false false ≡ some (some c)
    → key ≡ key'
char_injective key key' c h h' e e' =
    distinct-get (chars 2) c key key' en_distinct (sym (char-chars Local.en false false key h) ∙ e)
      (sym (char-chars Local.en false false key' h') ∙ e')

layout_capitals :
    (loc : Local) → capitals (chars (offset loc false false)) (chars (offset loc true false)) ≡ true
unfolding capitals chars column symbol
layout_capitals Local.en = refl
layout_capitals Local.fr = refl

-- In both layouts, a key that gives a lower-case letter gives with shift the capital of that letter.
pub char_capital :
    (loc : Local) (key c : ℕ)
    → key < 255
    → b'a' ≤ c
    → c ≤ b'z'
    → char key loc false false ≡ some (some c)
    → char key loc true false ≡ some (some (c - 32))
char_capital loc key c h l u e =
    char-chars loc true false key h
    ∙ capitals-get (chars (offset loc false false)) (chars (offset loc true false)) c key
        (layout_capitals loc) l u (sym (char-chars loc false false key h) ∙ e)

-- The lower-case letters from `c` down to 'a'.
all_elem : ℕ → ℕ → List (Option ℕ) → Bool
all_elem c zero xs = true
all_elem c (suc n) xs = elem (c + n) xs && all_elem c n xs

all_elem-elem :
    (c n i : ℕ) (xs : List (Option ℕ)) → i < n → all_elem c n xs ≡ true → elem (c + i) xs ≡ true
unfolding all_elem
all_elem-elem c zero i xs h e = absurd (omega arith)
all_elem-elem c (suc n) i xs h e = elim (Bool-cases (i == n)) [
  | inl q ↦ ap (λ k. elem (c + k) xs) ((==_iff i n).0 q) ∙ ground (arith, e)
  | inr q ↦ all_elem-elem c n i xs (ground (arith, h, q)) (ground (arith, e))
]

layout_letters : (loc : Local) → all_elem b'a' 26 (chars (offset loc false false)) ≡ true
unfolding all_elem elem chars column symbol
layout_letters Local.en = refl
layout_letters Local.fr = refl

-- In both layouts every lower-case letter has a key that gives it without modifiers.
pub letter_typed :
    (loc : Local) (c : ℕ)
    → b'a' ≤ c
    → c ≤ b'z'
    → (key : ℕ) × (key < 255) × (char key loc false false ≡ some (some c))
letter_typed loc c l u =
    let at : b'a' + (c - b'a') ≡ c = omega arith in
    let present : elem c (chars (offset loc false false)) ≡ true =
      sym (ap (λ k. elem k (chars (offset loc false false))) at)
      ∙ all_elem-elem b'a' 26 (c - b'a') (chars (offset loc false false)) (omega arith)
          (layout_letters loc) in
    let small : position c (chars (offset loc false false)) < 255 =
      subst (λ n. position c (chars (offset loc false false)) < n)
        (chars_full (offset loc false false) (offset_le loc false false))
        (position-length c (chars (offset loc false false)) present) in
    (
      position c (chars (offset loc false false)),
      small,
      char-chars loc false false _ small ∙ position-get c (chars (offset loc false false)) present,
    )

no_period : (o : ℕ) → o < 6 → elem b'.' (chars o) ≡ false
unfolding elem chars column symbol
no_period zero h = refl
no_period (suc zero) h = refl
no_period (suc (suc zero)) h = refl
no_period (suc (suc (suc zero))) h = refl
no_period (suc (suc (suc (suc zero)))) h = refl
no_period (suc (suc (suc (suc (suc zero))))) h = refl
no_period (suc (suc (suc (suc (suc (suc o)))))) h = absurd (omega arith)

char-past :
    (key : ℕ) (loc : Local) (shift altg : Bool)
    → leb 255 key ≡ true
    → char key loc shift altg ≢ some (some b'.')
unfolding char
char-past key loc shift altg big e = cc (big, e)

-- No key gives a full stop, in either layout and with any modifiers.
pub period_untyped :
    (key : ℕ) (loc : Local) (shift altg : Bool) → char key loc shift altg ≢ some (some b'.')
period_untyped key loc shift altg e = elim (Bool-cases (leb 255 key)) [
  | inl big ↦ char-past key loc shift altg big e
  | inr small ↦
      let found =
        elem-get b'.' (chars (offset loc shift altg)) key
          (sym (char-chars loc shift altg key (ground (arith, small))) ∙ e) in
      cc (found, no_period (offset loc shift altg) (offset_le loc shift altg))
]
