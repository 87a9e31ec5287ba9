-- ===== src/Connection/CopyTests.antt =====
-- Table writers and readers on a libpq that answers from lists, an answer of `poll`,
-- and a pipeline.
use taopq.Base.{some, Bool, false, ℕ, ◌≡◌, refl, true, List, [], ◌∷◌, Option, none, Bytes, ok}
use taopq.Decode.{FromChars, no_error, from_chars}
use taopq.Connection.{
  pipeline_sync, writable, ResultStatus, command_ok, copy_in, copy_out, Connection, libpq, expect,
  handle_one, handle_loop, handle_notifications, busy_loop, get_result, result_status,
  expect_nothing, consume_empty_result,
}
use taopq.Connection.Copy.{put_copy_round, put_copy_loop, put_copy_end}
use taopq.Connection.Query.{
  construct, conclude, by_status, obtained, transaction_get_result, expect_copy_in,
  writer_check_result, expect_copy_out, reader_check_result,
}
use taopq.Connection.Drained.{Got}
use taopq.Connection.Tables.{rows_of, rows_affected, answer, writer_commit}
use taopq.Connection.Modes.{
  writer_check_result-copy_in, reader_check_result-copy_out, writer_commit-Got,
}
use taopq.Connection.Pipeline.{
  consume_pipeline_sync, expect_sync, is_sync, consume_pipeline_sync_lem,
}
use taopq.Connection.Poll.{one_ready, poll, poll-writable}
use taopq.Connection.Script.{Script, script}

abbrev with_results : List ResultStatus → Connection Script ℕ
with_results rs = record {
  pgconn = record { unsent = 0; signal = false; waiting = 0; notes = []; results = rs };
  prepared_statements = [];
  in_use = true;
  notification_handler = none;
  notification_handlers = λ channel. none;
  called = [];
}

-- A `std::from_chars` that reads every text as two.
abbrev two : Bytes → FromChars ℕ
two s = record { value = 2; rest = []; ec = no_error }

ready : writer_check_result script 4 (with_results (copy_in ∷ [])) ≡ (with_results [], ok tt)
unfolding writer_check_result expect_copy_in get_result result_status busy_loop libpq
    handle_notifications handle_loop handle_one
ready = refl

writer_check_result-copy_in_example :
    (o : Option ResultStatus) × (get_result script 4 (with_results (copy_in ∷ []))
      ≡ (with_results [], ok o))
    × (result_status script o ≡ copy_in)
writer_check_result-copy_in_example =
    writer_check_result-copy_in script 4 (with_results (copy_in ∷ [])) (with_results []) tt ready

sending :
    reader_check_result script 4 true (with_results (copy_out ∷ [])) ≡ (with_results [], ok tt)
unfolding reader_check_result expect_copy_out get_result result_status busy_loop libpq
    handle_notifications handle_loop handle_one
sending = refl

reader_check_result-copy_out_example :
    (o : Option ResultStatus) × (get_result script 4 (with_results (copy_out ∷ []))
      ≡ (with_results [], ok o))
    × (result_status script o ≡ copy_out)
reader_check_result-copy_out_example =
    reader_check_result-copy_out script 4 true (with_results (copy_out ∷ [])) (with_results []) tt
      sending

committed :
    writer_commit script 4 two true (with_results (command_ok ∷ [])) ≡ (with_results [], ok 2)
unfolding writer_commit put_copy_end put_copy_loop put_copy_round transaction_get_result expect
    get_result busy_loop libpq handle_notifications handle_loop handle_one obtained by_status
    conclude construct consume_empty_result expect_nothing answer rows_affected rows_of from_chars
committed = refl

writer_commit-Got_example :
    (r : ResultStatus) × (rows_affected script two r ≡ ok 2) × Got script 4 r (with_results [])
writer_commit-Got_example =
    writer_commit-Got script 4 two true (with_results (command_ok ∷ [])) (with_results []) 2
      committed

to_write : poll (one_ready (record { pollin = false; pollout = true })) true ≡ ok writable
unfolding poll
to_write = refl

poll-writable_example :
    (◌≡◌ {A = Bool} true true)
    × (one_ready (record { pollin = false; pollout = true })
        ≡ one_ready (record { pollin = false; pollout = true }))
poll-writable_example =
    poll-writable (one_ready (record { pollin = false; pollout = true })) true to_write

synced :
    consume_pipeline_sync script 4 true (with_results (pipeline_sync ∷ []))
    ≡ (with_results [], ok tt)
unfolding consume_pipeline_sync expect_sync is_sync expect get_result busy_loop libpq
    handle_notifications handle_loop handle_one
synced = refl

consume_pipeline_sync_lem_example :
    (◌≡◌ {A = Bool} true true)
    × (r : ResultStatus) × (get_result script 4 (with_results (pipeline_sync ∷ []))
        ≡ (with_results [], ok (some r)))
    × (r ≡ pipeline_sync)
consume_pipeline_sync_lem_example =
    consume_pipeline_sync_lem script 4 true (with_results (pipeline_sync ∷ [])) (with_results []) tt
      synced
