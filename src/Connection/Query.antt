-- ===== src/Connection/Query.antt =====
-- The results of statements: `transaction_base::get_result` of src/lib/pq/transaction_base.cpp, the
-- constructor of `pq::result`, and `check_result` of table_reader.cpp and table_writer.cpp. What
-- `throw_sqlstate` throws is `pq_error` here; its class is chosen in SqlState.
use taopq.Base.{
  ℕ, Bool, Option, none, some, codes, Error, overrun, pq_error, runtime_error, logic_error,
}
use taopq.Base.Action.{Action, pure, fail, ◌>>=◌, ◌>>◌}
use taopq.Connection.{
  Libpq, Connection, ResultStatus, empty_query, command_ok, tuples_ok, copy_out, copy_in,
  single_tuple, tuples_chunk, pipeline_sync, pipeline_aborted, expect, get_result, result_status,
  get_fatal_error, consume_empty_result,
}
use taopq.Connection.Copy.{put_copy_end, clear_copy_data, cancel}

-- The constructor of `result`, by the status.
unfoldable pub construct : {S A : Type 0} → ResultStatus → A → Action S A
construct command_ok r = pure r
construct tuples_ok r = pure r
construct single_tuple r = pure r
construct tuples_chunk r = pure r
construct pipeline_sync r = pure r
construct pipeline_aborted r = pure r
construct empty_query r = fail runtime_error
construct copy_in r = fail overrun
construct copy_out r = fail overrun
construct _ r = fail pq_error

module _ {L R H : Type 0} (pq : Libpq L R) (limit : ℕ) where
  -- The end of `transaction_base::get_result`.
  unfoldable pub conclude : R → Action (Connection L H) R
  conclude r = do consume_empty_result pq limit; construct (pq.status r) r

  -- An unexpected COPY TO statement is cancelled.
  unfoldable pub stop_copy_out : {A : Type 0} → Action (Connection L H) A
  stop_copy_out = do
    cancel pq limit
    clear_copy_data pq limit
    _ ← get_fatal_error pq limit
    consume_empty_result pq limit
    fail runtime_error

  unfoldable pub by_status : ResultStatus → R → Action (Connection L H) R
  by_status copy_in r = do
    put_copy_end pq limit (some (codes "unexpected COPY FROM statement"))
    e ← get_fatal_error pq limit
    conclude e
  by_status copy_out r = stop_copy_out
  by_status single_tuple r = construct single_tuple r
  by_status tuples_chunk r = construct tuples_chunk r
  by_status _ r = conclude r

  unfoldable pub obtained : Option R → Action (Connection L H) R
  obtained none = fail runtime_error
  obtained (some r) = by_status (pq.status r) r

  -- `is_current` is the test of `check_current_transaction`.
  unfoldable pub transaction_get_result : Bool → Action (Connection L H) R
  transaction_get_result is_current = do
    expect logic_error is_current
    result ← get_result pq limit
    obtained result

  -- The result is not the one that is wanted.
  unfoldable pub refuse : {A : Type 0} → Error → Action (Connection L H) A
  refuse e = do consume_empty_result pq limit; fail e

  -- `table_writer::check_result`.
  unfoldable pub expect_copy_in : ResultStatus → Action (Connection L H) (Unit {0})
  expect_copy_in copy_in = pure tt
  expect_copy_in copy_out = stop_copy_out
  expect_copy_in command_ok = refuse runtime_error
  expect_copy_in tuples_ok = refuse runtime_error
  expect_copy_in empty_query = refuse runtime_error
  expect_copy_in _ = refuse pq_error

  unfoldable pub writer_check_result : Action (Connection L H) (Unit {0})
  writer_check_result = do result ← get_result pq limit; expect_copy_in (result_status pq result)

  -- `table_reader::check_result`; behind `get_result` for COPY FROM there is `unreachable`.
  unfoldable pub expect_copy_out : Bool → ResultStatus → Action (Connection L H) (Unit {0})
  expect_copy_out is_current copy_out = pure tt
  expect_copy_out is_current copy_in = do _ ← transaction_get_result is_current; fail overrun
  expect_copy_out is_current command_ok = refuse runtime_error
  expect_copy_out is_current tuples_ok = refuse runtime_error
  expect_copy_out is_current empty_query = refuse runtime_error
  expect_copy_out is_current _ = refuse pq_error

  unfoldable pub reader_check_result : Bool → Action (Connection L H) (Unit {0})
  reader_check_result is_current = do
    result ← get_result pq limit
    expect_copy_out is_current (result_status pq result)
