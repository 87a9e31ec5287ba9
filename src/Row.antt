-- ===== src/Row.antt =====
-- `pq::row` and `pq::field`: row.hpp, src/lib/pq/row.cpp, field.hpp and src/lib/pq/field.cpp.
pub mod Slices
pub mod Names
pub mod Fields
pub mod Typed
pub mod Cells
pub mod Containers
pub mod Tests
use taopq.Base.{
  ℕ, zero, suc, ◌+◌, ◌-◌, ◌%◌, ◌^◌, Bool, true, false, Bytes, Option, none, some, if◌then◌else◌,
  ltb, leb, ◌==◌, bytes_eq, Result, ok, throw, out_of_range, invalid_argument, ◌>>=◌,
}
use taopq.QueryResult.{QueryResult}
use taopq.QueryResult

-- `std::size_t` has 64 bits.
abbrev pub size_mod : ℕ
size_mod = 2 ^ 64

pub record Row : Type 0 where
  pub result : QueryResult
  pub row : ℕ
  pub offset : ℕ
  pub columns : ℕ

-- `result::operator[]`.
unfoldable pub row_at : QueryResult → ℕ → Row
row_at r row = record { result = r; row = row; offset = 0; columns = r.columns }

-- `result::at`.
unfoldable pub at_row : QueryResult → ℕ → Result Row
unfolding row_at
at_row r row = QueryResult.check_row r row (ok (row_at r row))

unfoldable pub ensure_column : {A : Type 0} → Row → ℕ → Result A → Result A
ensure_column r column next = if leb r.columns column then throw out_of_range else next

unfoldable pub slice : Row → ℕ → ℕ → Result Row
slice r offset in_columns =
    if in_columns == 0
    then throw invalid_argument
    else if ltb r.columns ((offset + in_columns) % size_mod)
    then throw out_of_range
    else ok (record r { offset = (r.offset + offset) % size_mod; columns = in_columns })

unfoldable pub name : Row → ℕ → Result Bytes
name r column = QueryResult.name r.result ((r.offset + column) % size_mod)

-- The loop of `index` from column `pos` on, with the rounds that are left.
unfoldable pub find_name : Row → Bytes → ℕ → ℕ → Result ℕ
find_name r adapted_name zero pos = throw out_of_range
find_name r adapted_name (suc left) pos = do
  found ← name r pos
  let rest = find_name r adapted_name left (pos + 1)
  if bytes_eq found adapted_name then ok pos else rest

-- `index` behind the call of `result::index`, which gave the column `n` of the result.
unfoldable pub resolve : Row → ℕ → Result ℕ
resolve r n =
    if leb r.offset n
    then if ltb (n - r.offset) r.columns then ok (n - r.offset) else throw out_of_range
    else (do adapted_name ← QueryResult.name r.result n; find_name r adapted_name r.columns 0)

unfoldable pub index : Row → Bytes → Result ℕ
index r in_name = do n ← QueryResult.index r.result in_name; resolve r n

unfoldable pub is_null : Row → ℕ → Result Bool
unfolding ensure_column
is_null r column =
    ensure_column r column (QueryResult.is_null r.result r.row ((r.offset + column) % size_mod))

unfoldable pub get : Row → ℕ → Result Bytes
unfolding ensure_column
get r column =
    ensure_column r column (QueryResult.get r.result r.row ((r.offset + column) % size_mod))

-- `pq::field`: the row, and a column of the result (not of the row).
pub record Field : Type 0 where
  pub row : Row
  pub column : ℕ

unfoldable pub at : Row → ℕ → Result Field
unfolding ensure_column
at r column =
    ensure_column r column (ok (record { row = r; column = (r.offset + column) % size_mod }))

-- `row::at( name )` and `row::operator[]( name )`.
unfoldable pub at_name : Row → Bytes → Result Field
at_name r in_name = do
  column ← index r in_name
  ok (record { row = r; column = (r.offset + column) % size_mod })

unfoldable pub field_name : Field → Result Bytes
field_name f = name f.row f.column

unfoldable pub field_index : Field → ℕ
field_index f = (f.column + size_mod - f.row.offset) % size_mod

unfoldable pub field_is_null : Field → Result Bool
field_is_null f = is_null f.row f.column

unfoldable pub field_get : Field → Result Bytes
field_get f = get f.row f.column
