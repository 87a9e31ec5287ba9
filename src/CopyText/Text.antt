-- ===== src/CopyText/Text.antt =====
-- The lines that PostgreSQL documents for COPY TO in text format, which `parse_data` of
-- src/lib/pq/table_reader.cpp reads.
use taopq.Base.{
  ℕ, ◌≡◌, ◌≢◌, refl, true, List, [], ◌∷◌, ◌++◌, Option, none, some, if◌then◌else◌, ◌==◌, All,
  All-append, Bytes, IsText, Avoids, member, arith,
}
use taopq.CopyText.{unescaped}

-- The bytes that have an escape sequence: backspace, form feed, newline, carriage return, tab,
-- vertical tab and the backslash.
abbrev pub controls : Bytes
controls = 8 ∷ 12 ∷ 10 ∷ 13 ∷ 9 ∷ 11 ∷ b'\\' ∷ []

unfoldable pub letter : ℕ → ℕ
letter c =
    if c == 8
    then b'b'
    else if c == 12
    then b'f'
    else if c == 10
    then b'n'
    else if c == 13
    then b'r'
    else if c == 9
    then b't'
    else if c == 11
    then b'v'
    else b'\\'

unfoldable pub encoded : Bytes → Bytes
encoded [] = []
encoded (c ∷ s) =
    let rest = encoded s in if member c controls then b'\\' ∷ letter c ∷ rest else c ∷ rest

unfoldable pub cell : Option Bytes → Bytes
cell none = b'\\' ∷ b'N' ∷ []
cell (some s) = encoded s

-- What is behind a cell, and a line of one or more cells.
unfoldable pub after : List (Option Bytes) → Bytes
after [] = 10 ∷ []
after (v ∷ vs) = 9 ∷ cell v ++ after vs

unfoldable pub line : Option Bytes → List (Option Bytes) → Bytes
line v vs = cell v ++ after vs

-- No byte of a cell is zero.
abbrev pub IsCell : Option Bytes → Type 0
IsCell none = Unit {0}
IsCell (some s) = IsText s

pub encoded-Avoids : (s : Bytes) → Avoids controls s → encoded s ≡ s
unfolding encoded
encoded-Avoids [] h = refl
encoded-Avoids (c ∷ s) h = ground (arith, encoded-Avoids s h.1)

pub encoded-found :
    (before : Bytes) (c : ℕ) (rest : Bytes)
    → Avoids controls before
    → member c controls ≡ true
    → encoded (before ++ c ∷ rest) ≡ before ++ b'\\' ∷ letter c ∷ encoded rest
unfolding encoded
encoded-found [] c rest h m = ground arith
encoded-found (b ∷ before) c rest h m = ground (arith, encoded-found before c rest h.1 m)

-- The reader takes each letter for the byte that it was written for.
pub unescaped-letter : (c : ℕ) → member c controls ≡ true → unescaped (letter c) ≡ some c
unfolding unescaped letter member
unescaped-letter c m = ground arith

pub letter_text : (c : ℕ) → (letter c ≢ 0) × (letter c ≢ b'N')
unfolding letter
letter_text c = ground arith

encoded-IsText : (s : Bytes) → IsText s → IsText (encoded s)
unfolding encoded
encoded-IsText [] h = tt
encoded-IsText (c ∷ s) h = ground (arith, encoded-IsText s h.1, letter_text c)

cell-IsText : (v : Option Bytes) → IsCell v → IsText (cell v)
unfolding cell
cell-IsText none h = (omega arith, omega arith)
cell-IsText (some s) h = encoded-IsText s h

pub line-IsText :
    (v : Option Bytes) (vs : List (Option Bytes)) → IsCell v → All IsCell vs → IsText (line v vs)
unfolding line after
line-IsText v [] h hs = All-append _ (cell v) _ (cell-IsText v h) (omega arith)
line-IsText v (w ∷ vs) h hs =
    All-append _ (cell v) _ (cell-IsText v h)
      (omega arith, unfold line in line-IsText w vs hs.0 hs.1)

-- The bytes at which `strpbrk` stops all have an escape sequence.
abbrev pub stops : Bytes
stops = 9 ∷ b'\\' ∷ 10 ∷ []

pub Avoids-stops : (s : Bytes) → Avoids controls s → Avoids stops s
unfolding member
Avoids-stops [] h = tt
Avoids-stops (c ∷ s) h = (ground (arith, h.0), Avoids-stops s h.1)
