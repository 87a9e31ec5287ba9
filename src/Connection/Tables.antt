-- ===== src/Connection/Tables.antt =====
-- `table_writer` and the raw data of `table_reader` on a connection: src/lib/pq/table_writer.cpp,
-- src/lib/pq/table_reader.cpp, and `result::rows_affected` of src/lib/pq/result.cpp.
use taopq.Base.{ℕ, Bool, Option, none, some, [], ◌∷◌, Bytes, Result, ok, throw, logic_error}
use taopq.Base.Action.{Action, pure, ◌>>=◌, ◌>>◌}
use taopq.Decode.{FromChars, from_chars}
use taopq.Connection.{Libpq, Connection, get_result, result_status}
use taopq.Connection.Copy.{get_copy_data, put_copy_data, put_copy_end}
use taopq.Connection.Query.{construct, transaction_get_result}

-- `rows_affected`, with `std::from_chars< std::size_t >` as `std`.
unfoldable pub rows_of : (Bytes → FromChars ℕ) → Bytes → Result ℕ
rows_of std [] = throw logic_error
rows_of std (c ∷ s) = from_chars std (c ∷ s)

unfoldable pub rows_affected : {L R : Type 0} → Libpq L R → (Bytes → FromChars ℕ) → R → Result ℕ
rows_affected pq std r = rows_of std (pq.cmd_tuples r)

-- The answer of a call that does not change the connection.
unfoldable pub answer : {S : Type 0} → Result ℕ → Action S ℕ
answer r c = (c, r)

module _ {L R H : Type 0} (pq : Libpq L R) (limit : ℕ) where
  -- `table_writer::insert_raw`.
  unfoldable pub insert_raw : Bytes → Action (Connection L H) (Unit {0})
  insert_raw buffer = put_copy_data pq limit buffer

  -- `table_writer::commit`; `is_current` says whether the writer's guard is the current transaction.
  unfoldable pub writer_commit : (Bytes → FromChars ℕ) → Bool → Action (Connection L H) ℕ
  writer_commit std is_current = do
    put_copy_end pq limit none
    result ← transaction_get_result pq limit is_current
    answer (rows_affected pq std result)

  -- The destructor of a writer that was not committed, which swallows every exception.
  unfoldable pub writer_destroy : Bool → Action (Connection L H) (Unit {0})
  writer_destroy is_current c = ((transaction_get_result pq limit is_current c).0, ok tt)

  -- `table_reader::get_raw_data`: at the end of the data comes the result of the statement.
  unfoldable pub raw_or_result : Option Bytes → Action (Connection L H) (Option Bytes)
  raw_or_result (some buffer) = pure (some buffer)
  raw_or_result none = do result ← get_result pq limit; construct (result_status pq result) none

  unfoldable pub reader_get_raw_data : Action (Connection L H) (Option Bytes)
  reader_get_raw_data = do buffer ← get_copy_data pq limit; raw_or_result buffer
