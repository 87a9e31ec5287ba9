-- ===== src/Connection.antt =====
-- `pq::connection`: connection.hpp and src/lib/pq/connection.cpp, with result_status.hpp, poll.hpp and
-- notification.hpp. libpq and the poll callback are a parameter. Log handlers are left out.
pub mod Poll
pub mod Copy
pub mod Prepared
pub mod Pipeline
pub mod Query
pub mod Tables
pub mod Modes
pub mod Measure
pub mod Waits
pub mod Ends
pub mod Notified
pub mod Drained
pub mod Frame
pub mod QueryFrame
pub mod Names
pub mod Identifiers
pub mod Script
pub mod Tests
pub mod CopyTests
use taopq.Base.{
  ℕ, zero, suc, Bool, true, false, List, [], ◌∷◌, ◌++◌, Option, none, some, if◌then◌else◌, Bytes,
  bytes_eq, Error, Result, ok, throw, diverged, pq_error, connection_error, timeout_reached,
  runtime_error,
}
use taopq.Base.Action.{Action, pure, fail, ◌>>=◌, ◌>>◌}

-- `poll::status`.
pub data PollStatus : Type 0 where
  timeout readable writable again : PollStatus

-- `result_status`.
pub data ResultStatus : Type 0 where
  empty_query command_ok tuples_ok copy_out copy_in bad_response nonfatal_error : ResultStatus
  fatal_error single_tuple tuples_chunk pipeline_sync pipeline_aborted : ResultStatus

-- `transaction_status`.
pub data TransactionStatus : Type 0 where
  idle in_transaction active error unknown : TransactionStatus

pub record Notification : Type 0 where
  pub channel : Bytes
  pub payload : Bytes

-- The answers of `PQflush`: 0, 1 and -1.
pub data Flushed : Type 0 where
  all_sent some_left not_sent : Flushed

-- The answers of `PQgetCopyData`: the data, and 0, -1 and -2.
pub data CopyData : Type 0 where
  received : Bytes → CopyData
  not_yet ended refused : CopyData

-- The answers of `PQputCopyData` and `PQputCopyEnd`: 1, 0 and -1.
pub data CopyPut : Type 0 where
  taken full rejected : CopyPut

-- The functions of libpq on a connection of the type `L`, with results of the type `R`, and the poll
-- callback, which is given the socket and waits as long as the timeout allows. `PQsocket` of a
-- connection that is not open gives no socket, and `PQresultStatus` of the null pointer is a fatal error.
pub record Libpq (L R : Type 0) : Type 0 where
  pub is_busy : L → Bool
  pub flush : L → L × Flushed
  pub consume_input : L → L × Bool
  pub notifies : L → L × Option Notification
  pub get_result : L → L × Option R
  pub status : R → ResultStatus
  pub cmd_tuples : R → Bytes
  pub get_copy_data : L → L × CopyData
  pub put_copy_data : L → Bytes → L × CopyPut
  pub put_copy_end : L → Option Bytes → L × CopyPut
  pub cancel : L → L × Bool
  pub finish : L → L
  pub socket : L → Option ℕ
  pub poll : L → ℕ → Bool → L × Result PollStatus
  pub send_prepare : L → Bytes → Bytes → L × Bool
  pub send_query_params : L → Bytes → L × Bool
  pub send_query_prepared : L → Bytes → L × Bool
  pub escape_identifier : L → Bytes → Option Bytes
  pub transaction_status : L → TransactionStatus
  pub enter_pipeline_mode : L → L × Bool
  pub exit_pipeline_mode : L → L × Bool
  pub pipeline_sync : L → L × Bool
  pub set_single_row_mode : L → L × Bool

-- `m_pgconn`, `m_prepared_statements`, whether `m_current_transaction` is set, the handlers (of the type
-- `H`), and the calls that they got, the oldest first.
pub record Connection (L H : Type 0) : Type 0 where
  pub pgconn : L
  pub prepared_statements : List Bytes
  pub in_use : Bool
  pub notification_handler : Option H
  pub notification_handlers : Bytes → Option H
  pub called : List (H × Notification)

-- `set_notification_handler` and `reset_notification_handler` of a channel.
unfoldable pub set_handler : {L H : Type 0} → Connection L H → Bytes → Option H → Connection L H
set_handler c channel h = record c {
  notification_handlers = λ k. if bytes_eq k channel then h else c.notification_handlers k;
}

-- A handler that is there is called.
unfoldable pub call : {L H : Type 0} → Option H → Notification → Connection L H → Connection L H
call none n c = c
call (some h) n c = record c { called = c.called ++ (h, n) ∷ [] }

-- What one notification calls.
unfoldable pub handle : {L H : Type 0} → Notification → Connection L H → Connection L H
handle n c = let d = call c.notification_handler n c in call (d.notification_handlers n.channel) n d

unfoldable pub flushed : {S : Type 0} → Flushed → Action S Bool
flushed all_sent = pure false
flushed some_left = pure true
flushed not_sent = fail pq_error

-- A call that answers 0 when it fails.
unfoldable pub expect : {S : Type 0} → Error → Bool → Action S (Unit {0})
expect e true = pure tt
expect e false = fail e

-- A call of libpq.
unfoldable pub libpq : {L H A : Type 0} → (L → L × A) → Action (Connection L H) A
libpq f c = let (l, a) = f c.pgconn in (record c { pgconn = l }, ok a)

-- `PQresultStatus`.
unfoldable pub result_status : {L R : Type 0} → Libpq L R → Option R → ResultStatus
result_status pq none = fatal_error
result_status pq (some r) = pq.status r

-- Every loop has the fuel `limit`.
module _ {L R H : Type 0} (pq : Libpq L R) (limit : ℕ) where
  unfoldable pub flush : Action (Connection L H) Bool
  flush = do result ← libpq pq.flush; flushed result

  unfoldable pub consume_input : Action (Connection L H) (Unit {0})
  consume_input = do result ← libpq pq.consume_input; expect connection_error result

  -- One round of the loop of `handle_notifications`, with what `PQnotifies` gives.
  unfoldable pub handle_one :
      Action (Connection L H) (Unit {0}) → Option Notification → Action (Connection L H) (Unit {0})
  handle_one more none c = (c, ok tt)
  handle_one more (some n) c = more (handle n c)

  unfoldable pub handle_loop : ℕ → Action (Connection L H) (Unit {0})
  handle_loop zero = fail diverged
  handle_loop (suc fuel) = do n ← libpq pq.notifies; handle_one (handle_loop fuel) n

  unfoldable pub handle_notifications : Action (Connection L H) (Unit {0})
  handle_notifications = handle_loop limit

  unfoldable pub get_notifications : Action (Connection L H) (Unit {0})
  get_notifications = do consume_input; handle_notifications

  -- The socket, which `PQsocket` may not give.
  unfoldable pub given_socket : Option ℕ → Action (Connection L H) ℕ
  given_socket none = fail pq_error
  given_socket (some fd) = pure fd

  unfoldable pub socket : Action (Connection L H) ℕ
  socket c = given_socket (pq.socket c.pgconn) c

  -- One round of the loop of `wait`, with what the poll callback gives; an exception of the callback
  -- is passed on.
  unfoldable pub polled :
      Action (Connection L H) (Unit {0}) → Result PollStatus → Action (Connection L H) (Unit {0})
  polled more (throw e) c = (c, throw e)
  polled more (ok timeout) c = (record c { pgconn = pq.finish c.pgconn }, throw timeout_reached)
  polled more (ok readable) c = get_notifications c
  polled more (ok writable) c = (c, ok tt)
  polled more (ok again) c = more c

  unfoldable pub wait_loop : ℕ → Bool → Action (Connection L H) (Unit {0})
  wait_loop zero wait_for_write = fail diverged
  wait_loop (suc fuel) wait_for_write = do
    fd ← socket
    status ← libpq (λ l. pq.poll l fd wait_for_write)
    polled (wait_loop fuel wait_for_write) status

  unfoldable pub wait : Bool → Action (Connection L H) (Unit {0})
  wait wait_for_write = wait_loop limit wait_for_write

  -- Whether there is something left to be written: `flush` is not called any more once all is sent.
  unfoldable pub flush_again : Bool → Action (Connection L H) Bool
  flush_again true = flush
  flush_again false = pure false

  -- The loop of `get_result` while the connection is busy.
  unfoldable pub busy_loop : ℕ → Bool → Action (Connection L H) (Unit {0})
  busy_loop zero wait_for_write c = (c, throw diverged)
  busy_loop (suc fuel) wait_for_write c =
      let next : Action (Connection L H) (Unit {0}) = do
        still ← flush_again wait_for_write
        wait still
        busy_loop fuel still
      in if pq.is_busy c.pgconn then next c else (c, ok tt)

  unfoldable pub get_result : Action (Connection L H) (Option R)
  get_result = do
    busy_loop limit true
    result ← libpq pq.get_result
    handle_notifications
    pure result

  -- The test of `get_fatal_error`.
  unfoldable pub expect_fatal_error : Option R → Action (Connection L H) R
  expect_fatal_error none = fail runtime_error
  expect_fatal_error (some r) = elim (pq.status r) [ fatal_error ↦ pure r | _ ↦ fail runtime_error ]

  unfoldable pub get_fatal_error : Action (Connection L H) R
  get_fatal_error = do result ← get_result; expect_fatal_error result

  unfoldable pub expect_nothing : Option R → Action (Connection L H) (Unit {0})
  expect_nothing none = pure tt
  expect_nothing (some r) = fail runtime_error

  unfoldable pub consume_empty_result : Action (Connection L H) (Unit {0})
  consume_empty_result = do result ← get_result; expect_nothing result
