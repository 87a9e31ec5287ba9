-- ===== src/TableRow/Reads.antt =====
-- The cells that a `table_row` shows.
use taopq.Base.{
  ℕ, ◌+◌, ◌%◌, ◌≤◌, ◌<◌, ◌≡◌, refl, ap, sym, ◌∙◌, false, Bytes, Option, none, some, if◌then◌else◌,
  ltb, leb, ◌==◌, take, drop, drop-drop, length, length-take, length-drop, get_elem?, get_elem?_lt,
  get_elem?-take, get_elem?-drop, take-drop-take, ok, throw, out_of_range, invalid_argument, arith,
}
use taopq.Row.{size_mod}
use taopq.Convert.{Scalar, Desc, size, as_type}
use taopq.Convert.Reads.{Cells, Laws, read, read_cell, is_none}
use taopq.Convert.Rows.{as_type-read}
use taopq.TableRow.{
  TableRow, slice, raw, get, is_absent, is_null, convert, get_direct, table_row_ops,
}

-- The row shows columns of the line, and the line's columns can be counted.
pub record IsValid (r : TableRow) : Type 0 where
  pub within : r.offset + r.columns ≤ length r.raw_data
  pub counted : length r.raw_data < size_mod

abbrev pub cells : TableRow → Cells
cells r = take r.columns (drop r.offset r.raw_data)

length-cells : (r : TableRow) → IsValid r → length (cells r) ≡ r.columns
length-cells r v =
    length-take r.columns (drop r.offset r.raw_data)
      (omega (arith, v.within, length-drop r.offset r.raw_data (omega (arith, v.within))))

get-cells :
    (r : TableRow) (n : ℕ) (c : Option Bytes)
    → IsValid r
    → get_elem? (cells r) n ≡ some c
    → get r n ≡ ok c
unfolding get raw
get-cells r n c v e =
    let l : n < r.columns = omega (arith, get_elem?_lt (cells r) n c e, length-cells r v) in
    let a : leb r.columns n ≡ false = ground (arith, l) in
    let m : (r.offset + n) % size_mod ≡ r.offset + n = omega (arith, v.within, v.counted, l) in
    let g : get_elem? r.raw_data (r.offset + n) ≡ some c =
      sym (get_elem?-drop r.offset r.raw_data n)
      ∙ get_elem?-take r.columns (drop r.offset r.raw_data) n c e in
    rw (a, m, g) refl

slice-cells :
    (r : TableRow) (offset n : ℕ)
    → IsValid r
    → 0 < n
    → offset + n ≤ length (cells r)
    → (s : TableRow) × (slice r offset n ≡ ok s)
      × IsValid s
      × (cells s ≡ take n (drop offset (cells r)))
unfolding slice
slice-cells r offset n v p l =
    let k : offset + n ≤ r.columns = omega (arith, l, length-cells r v) in
    let a : (n == 0) ≡ false = ground (arith, p) in
    let m : (offset + n) % size_mod ≡ offset + n = omega (arith, v.within, v.counted, k) in
    let b : ltb r.columns (offset + n) ≡ false = ground (arith, k) in
    let o : (r.offset + offset) % size_mod ≡ r.offset + offset =
      omega (arith, v.within, v.counted, k) in
    (
      record r { offset = r.offset + offset; columns = n },
      rw (a, m, b, o) refl,
      record { within = omega (arith, v.within, k); counted = v.counted },
      ap (take n) (sym (drop-drop offset r.offset r.raw_data))
          ∙ sym (take-drop-take n offset r.columns (drop r.offset r.raw_data) k),
    )

convert-read_cell :
    {V : Type 0} (d : Scalar V) (c : Option Bytes) → convert d c ≡ read_cell invalid_argument d c
unfolding convert read_cell
convert-read_cell d none = refl
convert-read_cell d (some s) = refl

is_absent-is_none : (c : Option Bytes) → is_absent c ≡ is_none c
unfolding is_absent is_none
is_absent-is_none none = refl
is_absent-is_none (some s) = refl

pub table_row-Laws : {V : Type 0} → Laws (table_row_ops {V = V}) invalid_argument IsValid cells
unfolding is_null get_direct
table_row-Laws = record {
  columns = λ r v. sym (length-cells r v);
  is_null = λ r n c v e. rw (get-cells r n c v e) (ap ok (is_absent-is_none c));
  get_direct = λ r n c d v e. rw (get-cells r n c v e) (convert-read_cell d c);
  slice = slice-cells;
}

-- A row that shows columns of a line of COPY TO of fewer than 2 ^ 64 columns is converted to the
-- values that its type reads from the row's cells in order, for any nesting of tuples and
-- optionals; where the row has another number of columns than the type, it is refused.
pub as_type-table_row :
    {V : Type 0} (t : Desc V) (r : TableRow)
    → IsValid r
    → as_type table_row_ops t r ≡ (
        if size t == length (cells r)
        then read invalid_argument t (cells r)
        else throw out_of_range)
as_type-table_row t r v =
    as_type-read table_row_ops invalid_argument IsValid cells table_row-Laws t r v
