-- ===== src/QueryResult.antt =====
-- `pq::result`: result.hpp and src/lib/pq/result.cpp. What libpq answers about a `PGresult` is a
-- parameter, `PgResult`. Where the code asserts that the result has a column, a result without one
-- aborts.
use taopq.Base.{
  ℕ, not, ◌==◌, asserted, ◌<◌, ◌≤◌, ◌≡◌, Bool, true, arith, Bytes, Option, none, some,
  if◌then◌else◌, ltb, leb, Result, ok, throw, out_of_range, runtime_error, ◌>>=◌,
}

-- The accessors of libpq on one result: `PQnfields`, `PQntuples`, `PQfname`, `PQfnumber` (whose -1
-- is `none`), `PQgetisnull` and `PQgetvalue`.
pub record PgResult : Type 0 where
  pub nfields : ℕ
  pub ntuples : ℕ
  pub fname : ℕ → Bytes
  pub fnumber : Bytes → Option ℕ
  pub getisnull : ℕ → ℕ → Bool
  pub getvalue : ℕ → ℕ → Bytes

-- What libpq documents of `PQfnumber`: it answers with a column of the result, and with the first
-- one of that column's name.
pub record IsFirst (pg : PgResult) : Type 0 where
  pub within : (in_name : Bytes) (n : ℕ) → pg.fnumber in_name ≡ some n → n < pg.nfields
  pub first :
      (in_name : Bytes) (n i : ℕ) → pg.fnumber in_name ≡ some n → pg.fname i ≡ pg.fname n → n ≤ i

-- `m_pgresult`, `m_columns` and `m_rows`.
pub record QueryResult : Type 0 where
  pub pgresult : PgResult
  pub columns : ℕ
  pub rows : ℕ

unfoldable pub of_pgresult : PgResult → QueryResult
of_pgresult pg = record { pgresult = pg; columns = pg.nfields; rows = pg.ntuples }

-- `m_columns != 0`, which `check_row`, `index`, `size` and `as_container` assert.
unfoldable pub has_columns : QueryResult → Bool
has_columns r = not (r.columns == 0)

pub has_columns-pos : (q : QueryResult) → 0 < q.columns → has_columns q ≡ true
unfolding has_columns
has_columns-pos q p = ground (arith, p)

unfoldable pub check_row : {A : Type 0} → QueryResult → ℕ → Result A → Result A
check_row r row next =
    asserted (has_columns r) (if ltb row r.rows then next else throw out_of_range)

unfoldable pub name : QueryResult → ℕ → Result Bytes
name r column = if leb r.columns column then throw out_of_range else ok (r.pgresult.fname column)

unfoldable pub index : QueryResult → Bytes → Result ℕ
index r in_name =
    asserted (has_columns r)
      (elim (r.pgresult.fnumber in_name) [ none ↦ throw out_of_range | some column ↦ ok column ])

unfoldable pub is_null : QueryResult → ℕ → ℕ → Result Bool
unfolding check_row
is_null r row column =
    check_row r row
      (if leb r.columns column then throw out_of_range else ok (r.pgresult.getisnull row column))

unfoldable pub get : QueryResult → ℕ → ℕ → Result Bytes
get r row column = do
  absent ← is_null r row column
  if absent then throw runtime_error else ok (r.pgresult.getvalue row column)
