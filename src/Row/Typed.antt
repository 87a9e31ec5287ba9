-- ===== src/Row/Typed.antt =====
-- The conversions of rows and results: `get` of a direct type in include/tao/pq/row.hpp, and `as`,
-- `optional` and `as_container` of include/tao/pq/result.hpp.
use taopq.Base.{
  ℕ, zero, suc, Bytes, Option, none, some, if◌then◌else◌, ◌==◌, Result, ok, throw, runtime_error,
  asserted, ◌>>=◌,
}
use taopq.QueryResult.{QueryResult, has_columns}
use taopq.Row.{Row, row_at, is_null, get, slice}
use taopq.Convert.{Scalar, Value, Desc, RowOps, as_type}

-- Where the traits have no `null()`, the null is found by the other `get`.
unfoldable pub get_nullable : {V : Type 0} → Row → ℕ → (Bytes → Result V) → Option V → Result V
get_nullable r column from none = get r column >>= from
get_nullable r column from (some v) = do
  null ← is_null r column
  let converted = get r column >>= from
  if null then ok v else converted

unfoldable pub get_direct : {V : Type 0} → Row → ℕ → Scalar (Value V) → Result (Value V)
get_direct r column d = get_nullable r column d.from d.null

abbrev pub row_ops : {V : Type 0} → RowOps Row V
row_ops = record {
  columns = λ r. r.columns;
  is_null = is_null;
  slice = slice;
  get_direct = get_direct;
}

module _ {V : Type 0} where
  -- `result::as`.
  unfoldable pub as_one : QueryResult → Desc V → Result (Value V)
  as_one r t = asserted (has_columns r) (
      if r.rows == 0
      then throw runtime_error
      else if r.rows == 1
      then as_type row_ops t (row_at r 0)
      else throw runtime_error)

  -- `result::optional`.
  unfoldable pub as_optional : QueryResult → Desc V → Result (Option (Value V))
  as_optional r t = asserted (has_columns r) (
      if r.rows == 0
      then ok none
      else if r.rows == 1
      then (as_type row_ops t (row_at r 0) >>= λ v. ok (some v))
      else throw runtime_error)

  -- The loop of `as_container` from the row `n` on, with the number of rows that are left; `insert`
  -- is `nrv.insert( nrv.end(), ... )`.
  unfoldable pub insert_rows :
      {C : Type 0} → (C → Value V → C) → QueryResult → Desc V → C → ℕ → ℕ → Result C
  insert_rows insert r t nrv n zero = ok nrv
  insert_rows insert r t nrv n (suc left) = do
    v ← as_type row_ops t (row_at r n)
    insert_rows insert r t (insert nrv v) (suc n) left

  unfoldable pub as_container :
      {C : Type 0} → (C → Value V → C) → C → QueryResult → Desc V → Result C
  as_container insert empty r t = asserted (has_columns r) (insert_rows insert r t empty 0 r.rows)
