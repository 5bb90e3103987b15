-- ===== src/Console/Keymap/Columns.antt =====
-- The table of app_console/src/st.rs read by columns, and tests of a column of characters.
use Prim.Native.String.{String}
use fomos.Common.{
  ℕ, zero, suc, ◌+◌, ◌*◌, ◌-◌, ◌≤◌, ◌<◌, ◌≡◌, refl, ap, ◌∙◌, Bool, true, false, ◌&&◌, not, Option,
  none, some, List, [], ◌∷◌, ◌==◌, leb, length, get_elem?, get_or, if◌then◌else◌, arith, ==_iff,
  Bool-cases, inl, inr,
}

-- Column `o` of a table of rows of six.
unfoldable pub column : ℕ → List String → List String
column o (a ∷ b ∷ c ∷ d ∷ e ∷ f ∷ xs) = get_or (a ∷ b ∷ c ∷ d ∷ e ∷ f ∷ []) o "" ∷ column o xs
column o _ = []

row_entry :
    (o : ℕ) (a b c d e f : String) (xs : List String)
    → o < 6
    → get_elem? (a ∷ b ∷ c ∷ d ∷ e ∷ f ∷ xs) o ≡ some (get_or (a ∷ b ∷ c ∷ d ∷ e ∷ f ∷ []) o "")
row_entry zero a b c d e f xs h = refl
row_entry (suc zero) a b c d e f xs h = refl
row_entry (suc (suc zero)) a b c d e f xs h = refl
row_entry (suc (suc (suc zero))) a b c d e f xs h = refl
row_entry (suc (suc (suc (suc zero)))) a b c d e f xs h = refl
row_entry (suc (suc (suc (suc (suc zero))))) a b c d e f xs h = refl
row_entry (suc (suc (suc (suc (suc (suc o)))))) a b c d e f xs h = absurd (omega arith)

pub column-get :
    (o : ℕ) (xs : List String) (k : ℕ)
    → o < 6
    → k < length (column o xs)
    → get_elem? xs (k * 6 + o) ≡ get_elem? (column o xs) k
unfolding column
column-get o (a ∷ b ∷ c ∷ d ∷ e ∷ f ∷ xs) zero h l =
    ap (get_elem? (a ∷ b ∷ c ∷ d ∷ e ∷ f ∷ xs)) (omega arith) ∙ row_entry o a b c d e f xs h
column-get o (a ∷ b ∷ c ∷ d ∷ e ∷ f ∷ xs) (suc k) h l =
    ap (get_elem? (a ∷ b ∷ c ∷ d ∷ e ∷ f ∷ xs)) (row k) ∙ column-get o xs k h (omega arith)
  where
    row : (k : ℕ) → suc k * 6 + o ≡ suc (suc (suc (suc (suc (suc (k * 6 + o))))))
    row k = omega arith
column-get o xs k h l = absurd (omega (arith, l))

-- Whether a character is in the column.
unfoldable pub elem : ℕ → List (Option ℕ) → Bool
elem c [] = false
elem c (none ∷ xs) = elem c xs
elem c (some x ∷ xs) = if x == c then true else elem c xs

pub elem-get :
    (c : ℕ) (xs : List (Option ℕ)) (i : ℕ) → get_elem? xs i ≡ some (some c) → elem c xs ≡ true
unfolding elem
elem-get c (none ∷ xs) zero h = cc
elem-get c (none ∷ xs) (suc i) h = elem-get c xs i h
elem-get c (some x ∷ xs) zero h = ground (arith, h)
elem-get c (some x ∷ xs) (suc i) h = ground (arith, elem-get c xs i h)
elem-get c [] i h = cc

-- No character is in the column twice.
unfoldable pub distinct : List (Option ℕ) → Bool
distinct [] = true
distinct (none ∷ xs) = distinct xs
distinct (some x ∷ xs) = not (elem x xs) && distinct xs

-- Where a lower-case letter is in the first column, the second has its capital.
unfoldable pub capitals : List (Option ℕ) → List (Option ℕ) → Bool
capitals [] ys = true
capitals (some x ∷ xs) (some y ∷ ys) =
    (if leb b'a' x && leb x b'z' then y + 32 == x else true) && capitals xs ys
capitals (some x ∷ xs) (none ∷ ys) = not (leb b'a' x && leb x b'z') && capitals xs ys
capitals (some x ∷ xs) [] = false
capitals (none ∷ xs) (y ∷ ys) = capitals xs ys
capitals (none ∷ xs) [] = false

-- The first place of a character in the column, its length if there is none.
unfoldable pub position : ℕ → List (Option ℕ) → ℕ
position c [] = 0
position c (none ∷ xs) = suc (position c xs)
position c (some x ∷ xs) = if x == c then 0 else suc (position c xs)

pub distinct-get :
    (xs : List (Option ℕ)) (c i j : ℕ)
    → distinct xs ≡ true
    → get_elem? xs i ≡ some (some c)
    → get_elem? xs j ≡ some (some c)
    → i ≡ j
unfolding distinct
distinct-get [] c i j h e f = cc
distinct-get (x ∷ xs) c zero zero h e f = refl
distinct-get (none ∷ xs) c zero (suc j) h e f = cc
distinct-get (none ∷ xs) c (suc i) zero h e f = cc
distinct-get (none ∷ xs) c (suc i) (suc j) h e f = ap suc (distinct-get xs c i j h e f)
distinct-get (some x ∷ xs) c zero (suc j) h e f = ground (arith, elem-get c xs j f)
distinct-get (some x ∷ xs) c (suc i) zero h e f = ground (arith, elem-get c xs i e)
distinct-get (some x ∷ xs) c (suc i) (suc j) h e f =
    ap suc (distinct-get xs c i j (ground (arith, h)) e f)

pub capitals-get :
    (xs ys : List (Option ℕ)) (c i : ℕ)
    → capitals xs ys ≡ true
    → b'a' ≤ c
    → c ≤ b'z'
    → get_elem? xs i ≡ some (some c)
    → get_elem? ys i ≡ some (some (c - 32))
unfolding capitals
capitals-get [] ys c i h l u e = cc
capitals-get (some x ∷ xs) (some y ∷ ys) c zero h l u e =
    let same : x ≡ c = cc in ap (λ v. some (some v)) (ground (arith, h, same))
capitals-get (some x ∷ xs) (some y ∷ ys) c (suc i) h l u e =
    capitals-get xs ys c i (ground (arith, h)) l u e
capitals-get (some x ∷ xs) (none ∷ ys) c zero h l u e = ground (arith, h, e)
capitals-get (some x ∷ xs) (none ∷ ys) c (suc i) h l u e =
    capitals-get xs ys c i (ground (arith, h)) l u e
capitals-get (some x ∷ xs) [] c i h l u e = cc
capitals-get (none ∷ xs) (y ∷ ys) c zero h l u e = cc
capitals-get (none ∷ xs) (y ∷ ys) c (suc i) h l u e = capitals-get xs ys c i h l u e
capitals-get (none ∷ xs) [] c i h l u e = cc

pub position-get :
    (c : ℕ) (xs : List (Option ℕ)) → elem c xs ≡ true → get_elem? xs (position c xs) ≡ some (some c)
unfolding position elem
position-get c [] h = cc
position-get c (none ∷ xs) h = position-get c xs h
position-get c (some x ∷ xs) h = elim (Bool-cases (x == c)) [
  | inl e ↦ rw e (ap (λ v. some (some v)) ((==_iff x c).0 e))
  | inr e ↦ rw e (position-get c xs (ground (arith, h, e)))
]

pub position-length : (c : ℕ) (xs : List (Option ℕ)) → elem c xs ≡ true → position c xs < length xs
unfolding position elem
position-length c [] h = cc
position-length c (none ∷ xs) h = omega (arith, position-length c xs h)
position-length c (some x ∷ xs) h = elim (Bool-cases (x == c)) [
  | inl e ↦ rw e (omega arith)
  | inr e ↦ rw e (omega (arith, position-length c xs (ground (arith, h, e))))
]
