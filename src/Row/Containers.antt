-- ===== src/Row/Containers.antt =====
-- `as`, `optional` and `as_container` of a result against the table of its cells.
use taopq.Base.{
  ℕ, zero, suc, ◌+◌, ◌≤◌, ◌<◌, ◌≡◌, refl, ap, ◌∙◌, true, false, List, [], ◌∷◌, map, Option, none,
  some, ◌==◌, Result, ok, throw, runtime_error, arith, ◌>>=◌,
}
use taopq.QueryResult.{QueryResult, has_columns-pos}
use taopq.IndexScan.{index_sequence}
use taopq.Row.{size_mod, row_at}
use taopq.Row.Typed.{row_ops, as_one, as_optional, insert_rows, as_container}
use taopq.Row.Cells.{IsShown, row_cells, length-row_cells, as_type-row}
use taopq.Convert.{Value, Desc, as_type}
use taopq.Convert.Reads.{Cells}
use taopq.Convert.Tables.{read_row, read_all, bind_same, take_whole}

-- All rows of the result.
unfoldable pub table : QueryResult → List Cells
table q = map (row_cells q) (index_sequence 0 q.rows)

module _ {V : Type 0} (t : Desc V) where
  -- The only row.
  unfoldable pub read_one : List Cells → Result (Value V)
  read_one [] = throw runtime_error
  read_one (cs ∷ []) = read_row runtime_error t cs
  read_one (cs ∷ ds ∷ rest) = throw runtime_error

  -- The only row, if there is one.
  unfoldable pub read_optional : List Cells → Result (Option (Value V))
  read_optional [] = ok none
  read_optional (cs ∷ []) = read_row runtime_error t cs >>= λ v. ok (some v)
  read_optional (cs ∷ ds ∷ rest) = throw runtime_error

  row_at-read_row :
      (q : QueryResult) (n : ℕ)
      → q.columns < size_mod
      → n < q.rows
      → as_type row_ops t (row_at q n) ≡ read_row runtime_error t (row_cells q n)
  unfolding row_at read_row
  row_at-read_row q n h l =
      let v : IsShown (row_at q n) = record { exists = l; within = omega arith; counted = h } in
      as_type-row t (row_at q n) v
      ∙ ap (read_row runtime_error t) (take_whole q.columns (row_cells q n) (length-row_cells q n))

  insert_rows-read_all :
      {C : Type 0} (insert : C → Value V → C) (q : QueryResult) (nrv : C) (n left : ℕ)
      → q.columns < size_mod
      → n + left ≤ q.rows
      → insert_rows insert q t nrv n left
        ≡ read_all runtime_error t insert nrv (map (row_cells q) (index_sequence n left))
  unfolding insert_rows read_all index_sequence
  insert_rows-read_all insert q nrv n zero h l = refl
  insert_rows-read_all insert q nrv n (suc left) h l =
      rw (row_at-read_row q n h (omega (arith, l))) (
        bind_same (read_row runtime_error t (row_cells q n)) _ _
          λ v. insert_rows-read_all insert q (insert nrv v) (suc n) left h (omega (arith, l)))

  one_row :
      (q : QueryResult) (n : ℕ)
      → 0 < q.columns
      → q.columns < size_mod
      → q.rows ≡ n
      → (as_one q t ≡ read_one (map (row_cells q) (index_sequence 0 n)))
        × (as_optional q t ≡ read_optional (map (row_cells q) (index_sequence 0 n)))
  unfolding as_one as_optional read_one read_optional index_sequence
  one_row q zero p h e =
      let c = has_columns-pos q p in
      let a : (q.rows == 0) ≡ true = ground (arith, e) in rw (c, a) (refl, refl)
  one_row q (suc zero) p h e =
      let c = has_columns-pos q p in
      let r = row_at-read_row q 0 h (omega (arith, e)) in
      let a : (q.rows == 0) ≡ false = ground (arith, e) in
      let b : (q.rows == 1) ≡ true = ground (arith, e) in rw (c, a, b, r) (refl, refl)
  one_row q (suc (suc n)) p h e =
      let c = has_columns-pos q p in
      let a : (q.rows == 0) ≡ false = ground (arith, e) in
      let b : (q.rows == 1) ≡ false = ground (arith, e) in rw (c, a, b) (refl, refl)

  -- The conversions of a whole result of one column or more, and fewer than 2 ^ 64, read its rows:
  -- `as` the only one, `optional` the only one or none, and `as_container` all of them in order,
  -- stopping at the first one that is refused.
  pub conversions-table :
      {C : Type 0} (insert : C → Value V → C) (empty : C) (q : QueryResult)
      → 0 < q.columns
      → q.columns < size_mod
      → (as_one q t ≡ read_one (table q))
        × (as_optional q t ≡ read_optional (table q))
        × (as_container insert empty q t ≡ read_all runtime_error t insert empty (table q))
  unfolding table as_container
  conversions-table insert empty q p h =
      let (a, b) = one_row q q.rows p h refl in
      let c = has_columns-pos q p in
      (a, b, rw (c) (insert_rows-read_all insert q empty 0 q.rows h (omega arith)))
