-- ===== src/TableReader/Rows.antt =====
-- `as_container` of a table reader against the lines that COPY TO sends.
use taopq.Base.{
  ℕ, zero, suc, ◌<◌, ◌≡◌, refl, ap, ◌∙◌, true, false, List, [], ◌∷◌, map, ◌==◌, All, Bytes, length,
  ok, throw, overrun, invalid_argument, ◌>>=◌, arith, leb,
}
use taopq.CopyText.{parse_data}
use taopq.CopyText.Text.{line, IsCell}
use taopq.CopyText.Reads.{parse_data-line}
use taopq.Row.{size_mod}
use taopq.TableRow.{get, raw, table_row_ops}
use taopq.TableRow.Reads.{as_type-table_row}
use taopq.Convert.{Desc, Value, as_type}
use taopq.Convert.Reads.{Cells}
use taopq.Convert.Tables.{read_row, read_all, bind_same, take_whole}
use taopq.TableReader.{
  TableReader, parsed, get_raw_data, get_row, row_of, begin, advance, insert_all, as_container,
}

-- The line of a row of one column or more.
unfoldable pub line_of : Cells → Bytes
line_of [] = []
line_of (v ∷ vs) = line v vs

-- A row of so many columns, none of which has a zero byte.
abbrev pub IsRow : ℕ → Cells → Type 0
IsRow n cs = (length cs ≡ n) × All IsCell cs

-- A reader in front of the lines of a table.
abbrev pub reader : ℕ → List Cells → Cells → TableReader
reader n rows old = record { columns = n; incoming = map line_of rows; raw_data = old }

length-map : {A B : Type 0} (f : A → B) (xs : List A) → length (map f xs) ≡ length xs
length-map f [] = refl
length-map f (x ∷ xs) = ap suc (length-map f xs)

get_row-line :
    (n : ℕ) (cs : Cells) (rows : List Cells) (old : Cells)
    → 0 < n
    → IsRow n cs
    → get_row (reader n (cs ∷ rows) old) ≡ ok (reader n rows cs, true)
unfolding get_row get_raw_data line_of parsed
get_row-line n [] rows old p (e, c) = absurd (omega (arith, e, p))
get_row-line n (v ∷ vs) rows old p (e, (c, cs)) =
    let (r, a, b) = parse_data-line v vs c cs in
    ap (λ x. x >>= λ y. ok (parsed (reader n rows old) y)) a
    ∙ ap (λ d. ok (reader n rows d, true)) b

get_row-end : (n : ℕ) (old : Cells) → get_row (reader n [] old) ≡ ok (reader n [] [], false)
unfolding get_row get_raw_data parsed parse_data
get_row-end n old = refl

module _ {V C : Type 0} (insert : C → Value V → C) (t : Desc V) where
  row_of-read_row :
      (n : ℕ) (cs : Cells) (rows : List Cells)
      → n < size_mod
      → length cs ≡ n
      → as_type table_row_ops t (row_of (reader n rows cs) n) ≡ read_row invalid_argument t cs
  unfolding row_of read_row
  row_of-read_row n cs rows h e =
      as_type-table_row t (row_of (reader n rows cs) n)
        (record { within = omega (arith, e); counted = omega (arith, e, h) })
      ∙ ap (read_row invalid_argument t) (take_whole n cs e)

  insert_all-read_all :
      (fuel n : ℕ) (nrv : C) (cs : Cells) (rows : List Cells)
      → suc (length rows) < fuel
      → 0 < n
      → n < size_mod
      → IsRow n cs
      → All (IsRow n) rows
      → insert_all insert t fuel nrv (reader n rows cs, n)
        ≡ read_all invalid_argument t insert nrv (cs ∷ rows)
  unfolding insert_all read_all advance
  insert_all-read_all zero n nrv cs rows l p h c cs' = absurd (omega (arith, l))
  insert_all-read_all (suc zero) n nrv cs rows l p h c cs' = absurd (omega (arith, l))
  insert_all-read_all (suc (suc fuel)) n nrv cs [] l p h c cs' =
      let a : (n == 0) ≡ false = ground (arith, p) in
      rw (a, row_of-read_row n cs [] h c.0, get_row-end n cs) refl
  insert_all-read_all (suc (suc fuel)) n nrv cs (ds ∷ rows) l p h c (d, cs') =
      let a : (n == 0) ≡ false = ground (arith, p) in
      rw (a, row_of-read_row n cs (ds ∷ rows) h c.0)
        (bind_same (read_row invalid_argument t cs) _ _ λ v.
          rw (get_row-line n ds rows cs p d)
            (insert_all-read_all (suc fuel) n (insert nrv v) ds rows (omega (arith, l)) p h d cs'))

  -- `as_container` of a reader in front of one row or more, each of as many columns as the reader
  -- has and without a zero byte, inserts the values that the type reads from the rows as the
  -- server sent them, in order, and stops at the first that is refused. There is at least one
  -- column, and fewer than 2 ^ 64.
  pub as_container-lines :
      (n : ℕ) (empty : C) (cs : Cells) (rows : List Cells) (old : Cells)
      → 0 < n
      → n < size_mod
      → All (IsRow n) (cs ∷ rows)
      → as_container insert t empty (reader n (cs ∷ rows) old)
        ≡ read_all invalid_argument t insert empty (cs ∷ rows)
  unfolding as_container begin
  as_container-lines n empty cs rows old p h (c, cs') =
      rw (get_row-line n cs rows old p c)
        (insert_all-read_all _ n empty cs rows (omega (arith, length-map line_of rows)) p h c cs')

-- In front of an empty table of at least one column, `begin` is not the end, and its row reads
-- behind the end of the reader's empty list of pointers in every column.
pub begin-empty :
    (n column : ℕ) (old : Cells)
    → 0 < n
    → column < n
    → (begin (reader n [] old) ≡ ok (reader n [] [], n))
      × (get (row_of (reader n [] []) n) column ≡ throw overrun)
unfolding begin get raw row_of
begin-empty n column old p l =
    let a : leb n column ≡ false = ground (arith, l) in (rw (get_row-end n old) refl, rw (a) refl)
