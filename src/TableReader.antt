-- ===== src/TableReader.antt =====
-- The rows of `pq::table_reader`: `get_row`, `row`, the iterator, `begin` and `as_container` of
-- include/tao/pq/table_reader.hpp and src/lib/pq/table_reader.cpp.
pub mod Rows
pub mod Tests
use taopq.Base.{
  ℕ, zero, suc, Bool, true, false, List, [], ◌∷◌, Option, none, some, if◌then◌else◌, ◌==◌, Bytes,
  length, Result, ok, throw, diverged, ◌>>=◌,
}
use taopq.CopyText.{Reader, parse_data, fields}
use taopq.TableRow.{TableRow, table_row_ops}
use taopq.Convert.{Desc, Value, as_type}

-- `m_columns`, the lines that `get_copy_data` is still going to hand out, and the C strings behind
-- the pointers of `m_data`.
pub record TableReader : Type 0 where
  pub columns : ℕ
  pub incoming : List Bytes
  pub raw_data : List (Option Bytes)

-- What `parse_data` leaves in `m_data`, and its answer.
unfoldable pub parsed : TableReader → Option Reader → TableReader × Bool
parsed q none = (record q { raw_data = [] }, false)
parsed q (some r) = (record q { raw_data = fields r r.raw_data }, true)

-- The buffer that `get_raw_data` gets: the next line, or the null pointer when there is none. The
-- result that ends the statement then is in Connection.
unfoldable pub get_raw_data : TableReader → TableReader × Option Bytes
get_raw_data q = elim q.incoming [
  | [] ↦ (q, none)
  | line ∷ rest ↦ (record q { incoming = rest }, some line)
]

unfoldable pub get_row : TableReader → Result (TableReader × Bool)
get_row q = let (p, buffer) = get_raw_data q in parse_data buffer >>= λ r. ok (parsed p r)

-- A row of the reader, with the columns that the iterator keeps.
unfoldable pub row_of : TableReader → ℕ → TableRow
row_of q columns = record { raw_data = q.raw_data; offset = 0; columns = columns }

unfoldable pub row : TableReader → TableRow
row q = row_of q q.columns

-- `begin`, which does not look at the answer of `get_row`.
unfoldable pub begin : TableReader → Result (TableReader × ℕ)
begin q = get_row q >>= λ p. ok (p.0, q.columns)

-- `operator++`.
unfoldable pub advance : TableReader → ℕ → Result (TableReader × ℕ)
advance q columns = get_row q >>= λ p. ok (p.0, if p.1 then columns else 0)

module _ {V C : Type 0} (insert : C → Value V → C) (t : Desc V) where
  -- The loop of `as_container`: `end` is an iterator with no columns.
  unfoldable pub insert_all : ℕ → C → TableReader × ℕ → Result C
  insert_all zero nrv it = throw diverged
  insert_all (suc fuel) nrv (q, columns) =
      let rest : Value V → Result C = λ v. advance q columns >>= insert_all fuel (insert nrv v) in
      if columns == 0 then ok nrv else as_type table_row_ops t (row_of q columns) >>= rest

  -- Each round but the first takes a line.
  unfoldable pub as_container : C → TableReader → Result C
  as_container empty q = begin q >>= insert_all (suc (suc (length q.incoming))) empty
