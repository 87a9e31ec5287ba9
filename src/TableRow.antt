-- ===== src/TableRow.antt =====
-- `pq::table_row` and `pq::table_field`: table_row.hpp, src/lib/pq/table_row.cpp, table_field.hpp and
-- src/lib/pq/table_field.cpp.
pub mod Reads
pub mod Fields
pub mod Tests
use taopq.Base.{
  ℕ, ◌+◌, ◌-◌, ◌%◌, found, Bool, true, false, List, Bytes, Option, none, some, if◌then◌else◌, ltb,
  leb, ◌==◌, get_elem?, Result, ok, throw, out_of_range, invalid_argument, overrun, ◌>>=◌,
}
use taopq.Row.{size_mod}
use taopq.Convert.{Scalar, Value, RowOps}

-- `raw_data()` of the reader, with the C string behind each pointer.
pub record TableRow : Type 0 where
  pub raw_data : List (Option Bytes)
  pub offset : ℕ
  pub columns : ℕ

unfoldable pub ensure_column : {A : Type 0} → TableRow → ℕ → Result A → Result A
ensure_column r column next = if leb r.columns column then throw out_of_range else next

unfoldable pub slice : TableRow → ℕ → ℕ → Result TableRow
slice r offset in_columns =
    if in_columns == 0
    then throw invalid_argument
    else if ltb r.columns ((offset + in_columns) % size_mod)
    then throw out_of_range
    else ok (record r { offset = (r.offset + offset) % size_mod; columns = in_columns })

-- `m_reader->raw_data()[ n ]`, which is not checked.
unfoldable pub raw : TableRow → ℕ → Result (Option Bytes)
raw r n = found (get_elem? r.raw_data n)

unfoldable pub get : TableRow → ℕ → Result (Option Bytes)
unfolding ensure_column
get r column = ensure_column r column (raw r ((r.offset + column) % size_mod))

unfoldable pub is_absent : Option Bytes → Bool
is_absent none = true
is_absent (some s) = false

unfoldable pub is_null : TableRow → ℕ → Result Bool
is_null r column = get r column >>= λ v. ok (is_absent v)

-- `get` of a direct type, behind the call of the other `get`.
unfoldable pub convert : {V : Type 0} → Scalar V → Option Bytes → Result V
convert d none = elim d.null [ none ↦ throw invalid_argument | some v ↦ ok v ]
convert d (some s) = d.from s

unfoldable pub get_direct : {V : Type 0} → TableRow → ℕ → Scalar (Value V) → Result (Value V)
get_direct r column d = get r column >>= convert d

abbrev pub table_row_ops : {V : Type 0} → RowOps TableRow V
table_row_ops = record {
  columns = λ r. r.columns;
  is_null = is_null;
  slice = slice;
  get_direct = get_direct;
}

-- The row, and a column of the reader (not of the row).
pub record TableField : Type 0 where
  pub row : TableRow
  pub column : ℕ

unfoldable pub at : TableRow → ℕ → Result TableField
unfolding ensure_column
at r column =
    ensure_column r column (ok (record { row = r; column = (r.offset + column) % size_mod }))

unfoldable pub index : TableField → ℕ
index f = (f.column + size_mod - f.row.offset) % size_mod

unfoldable pub field_is_null : TableField → Result Bool
field_is_null f = is_null f.row f.column

unfoldable pub field_get : TableField → Result (Option Bytes)
field_get f = get f.row f.column
