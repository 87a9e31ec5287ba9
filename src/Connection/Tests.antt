-- ===== src/Connection/Tests.antt =====
-- The theorems on connections at a libpq that answers from lists.
use taopq.Base.{
  ℕ, ◌≡◌, refl, true, false, [], ◌∷◌, ◌++◌, none, some, codes, member, ok, connection_error, arith,
}
use taopq.Connection.{
  tuples_ok, Notification, Connection, call, handle, flushed, expect, libpq, flush, consume_input,
  handle_one, handle_loop, handle_notifications, get_notifications, given_socket, socket, polled,
  wait_loop, wait, flush_again, busy_loop, get_result, expect_nothing, consume_empty_result,
}
use taopq.Connection.Notified.{calls_of, handle_notifications-calls_of}
use taopq.Connection.Query.{construct, conclude, by_status, obtained, transaction_get_result}
use taopq.Connection.Prepared.{
  insert, erase, send_params, is_identifier, all_of, is_digit, prepare, deallocate,
}
use taopq.Connection.Names.{Changes, prepare-Changes, deallocate-Changes}
use taopq.Connection.Identifiers.{prepare_as, execute_of, serve_all, send_params-query}
use taopq.Connection.Script.{Script, script}

abbrev note : Notification
note = record { channel = codes "news"; payload = codes "x" }

abbrev start : Connection Script ℕ
start = record {
  pgconn = record {
    unsent = 3;
    signal = true;
    waiting = 2;
    notes = note ∷ [];
    results = tuples_ok ∷ [];
  };
  prepared_statements = [];
  in_use = false;
  notification_handler = some 7;
  notification_handlers = λ channel. none;
  called = [];
}

-- Both results have been taken, and the handler has been called.
abbrev over : Connection Script ℕ
over = record start {
  pgconn = record { unsent = 1; signal = false; waiting = 0; notes = []; results = [] };
  called = (7, note) ∷ [];
}

run : transaction_get_result script 4 true start ≡ (over, ok tuples_ok)
unfolding transaction_get_result expect get_result busy_loop flush_again flush flushed libpq wait
    wait_loop socket given_socket polled get_notifications consume_input handle_notifications
    handle_loop handle_one handle call obtained by_status conclude construct consume_empty_result
    expect_nothing
run = refl

handle_notifications-calls_of_example : handle_notifications script 4 start ≡ (
  record start {
    pgconn = record {
      unsent = 3;
      signal = true;
      waiting = 2;
      notes = [];
      results = tuples_ok ∷ [];
    };
    called = [] ++ calls_of (some 7) (λ channel. none) (note ∷ []);
  },
  ok tt,
)
handle_notifications-calls_of_example =
    handle_notifications-calls_of script 4 start (note ∷ [])
      (record { unsent = 3; signal = true; waiting = 2; notes = []; results = tuples_ok ∷ [] })
      (
        record { unsent = 3; signal = true; waiting = 2; notes = []; results = tuples_ok ∷ [] },
        refl,
        refl,
      )
      (omega arith)

prepare-Changes_example :
    Changes (insert (codes "q")) start (prepare script 4 (codes "q") (codes "SELECT 1") start)
prepare-Changes_example = prepare-Changes script 4 (codes "q") (codes "SELECT 1") start

deallocate-Changes_example :
    Changes (erase (codes "q")) start (deallocate script 4 (codes "q") start)
deallocate-Changes_example = deallocate-Changes script 4 (codes "q") start

with_space : is_identifier (codes "SELECT 1") ≡ false
unfolding is_identifier all_of is_digit member
with_space = refl

send_params-query_example :
    send_params script 4 (codes "SELECT 1") (
      serve_all script 4
        (prepare_as (codes "q") (codes "SELECT 1") ∷ execute_of (codes "q") ∷ [])
        start)
    ≡ expect connection_error true (
        serve_all script 4
          (prepare_as (codes "q") (codes "SELECT 1") ∷ execute_of (codes "q") ∷ [])
          start)
send_params-query_example =
    send_params-query script 4
      (prepare_as (codes "q") (codes "SELECT 1") ∷ execute_of (codes "q") ∷ []) start
      (codes "SELECT 1") refl with_space
