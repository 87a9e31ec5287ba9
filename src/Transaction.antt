-- ===== src/Transaction.antt =====
-- The transactions of one connection: src/lib/pq/transaction.cpp, transaction.hpp,
-- src/lib/pq/transaction_base.cpp and the transactions of src/lib/pq/connection.cpp. An object is a
-- number, which also stands for the address in the name of its savepoint. Whether a statement is
-- executed or throws is an argument of each call.
pub mod Stack
pub mod Calls
pub mod Conclude
pub mod Order
pub mod Misuse
pub mod Tests
use taopq.Base.{
  ℕ, suc, ◌+◌, Bool, true, false, ◌&&◌, List, [], ◌∷◌, Option, none, some, if◌then◌else◌, ◌==◌,
  Result, ok, throw, logic_error, pq_error, overrun,
}

-- The classes: `autocommit_transaction`, `top_level_transaction`, `top_level_subtransaction`,
-- `nested_subtransaction` and `transaction_guard`.
pub data Kind : Type 0 where
  autocommit top_level top_level_sub nested_sub guard : Kind

-- `m_previous` (of the classes that have it), and whether `m_connection` is set.
pub record Transaction : Type 0 where
  pub kind : Kind
  pub previous : Option ℕ
  pub connected : Bool

pub data Statement : Type 0 where
  start_transaction commit_transaction rollback_transaction : Statement
  savepoint release_savepoint rollback_to : ℕ → Statement

-- `m_current_transaction`, the objects, the next object, and what was sent, newest first.
pub record World : Type 0 where
  pub current : Option ℕ
  pub transactions : ℕ → Transaction
  pub next : ℕ
  pub sent : List Statement

unfoldable pub update : (ℕ → Transaction) → ℕ → Transaction → ℕ → Transaction
update f t x k = if k == t then x else f k

unfoldable pub same : Option ℕ → ℕ → Bool
same none t = false
same (some c) t = c == t

-- The test of `check_current_transaction`.
unfoldable pub is_current : World → ℕ → Bool
is_current w t = (w.transactions t).connected && same w.current t

unfoldable pub v_is_direct : Kind → Bool
v_is_direct autocommit = true
v_is_direct _ = false

-- Where `current_transaction()` points to when a transaction is over: to null for the classes of
-- connection.cpp, else to `m_previous`.
unfoldable pub behind : Transaction → Option ℕ
behind x = elim x.kind [ autocommit ↦ none | top_level ↦ none | _ ↦ x.previous ]

-- `v_reset` and the destructors of the base classes, where `m_connection` is set.
unfoldable pub unlink : World → ℕ → World
unlink w t = record w {
  current = behind (w.transactions t);
  transactions = update w.transactions t (record (w.transactions t) { connected = false });
}

-- A new object that makes itself the current transaction.
unfoldable pub push : World → Kind → Option ℕ → World
push w kind previous = record w {
  current = some w.next;
  transactions =
      update w.transactions w.next (record { kind = kind; previous = previous; connected = true });
  next = suc w.next;
}

unfoldable pub send : World → Statement → World
send w s = record w { sent = s ∷ w.sent }

-- The constructors: a statement that throws destroys the base part of the new object.
unfoldable pub construct : World → Kind → Option ℕ → Statement → Bool → World × Result ℕ
construct w kind previous statement executes =
    let opened = send (push w kind previous) statement in
    if executes then (opened, ok w.next) else (unlink opened w.next, throw pq_error)

-- `connection::direct`.
unfoldable pub direct : World → World × Result ℕ
direct w = elim w.current [
  | none ↦ (push w autocommit none, ok w.next)
  | some c ↦ (w, throw logic_error)
]

-- `connection::transaction`.
unfoldable pub transaction : World → Bool → World × Result ℕ
transaction w executes = elim w.current [
  | none ↦ construct w top_level none start_transaction executes
  | some c ↦ (w, throw logic_error)
]

-- `transaction::subtransaction`.
unfoldable pub subtransaction : World → ℕ → Bool → World × Result ℕ
subtransaction w t executes =
    if is_current w t
    then (if v_is_direct (w.transactions t).kind
        then construct w top_level_sub w.current start_transaction executes
        else construct w nested_sub w.current (savepoint w.next) executes)
    else (w, throw logic_error)

-- The guard that a table reader or writer makes from a transaction. It goes by way of the
-- transaction's connection and the current transaction, and follows both without a check.
unfoldable pub make_guard : World → ℕ → World × Result ℕ
make_guard w t =
    if (w.transactions t).connected
    then elim w.current [ none ↦ (w, throw overrun) | some c ↦ (push w guard (some c), ok w.next) ]
    else (w, throw overrun)

-- `v_commit` and `v_rollback`: what is sent, if anything is.
unfoldable pub v_commit : Kind → ℕ → Option Statement
v_commit autocommit t = none
v_commit top_level t = some commit_transaction
v_commit top_level_sub t = some commit_transaction
v_commit nested_sub t = some (release_savepoint t)
v_commit guard t = none

unfoldable pub v_rollback : Kind → ℕ → Option Statement
v_rollback autocommit t = none
v_rollback top_level t = some rollback_transaction
v_rollback top_level_sub t = some rollback_transaction
v_rollback nested_sub t = some (rollback_to t)
v_rollback guard t = none

-- `v_reset` follows `m_connection`, which is null in a transaction that is over.
unfoldable pub v_reset : World → ℕ → Result ℕ → World × Result ℕ
v_reset w t answer =
    if (w.transactions t).connected then (unlink w t, answer) else (w, throw overrun)

-- `commit` and `rollback` with the statement of their virtual function.
unfoldable pub conclude : World → ℕ → Option Statement → Bool → World × Result ℕ
conclude w t statement executes =
    if is_current w t
    then elim statement [
      | none ↦ v_reset w t (ok t)
      | some s ↦ v_reset (send w s) t (if executes then ok t else throw pq_error)
    ]
    else v_reset w t (throw logic_error)

unfoldable pub commit : World → ℕ → Bool → World × Result ℕ
commit w t executes = conclude w t (v_commit (w.transactions t).kind t) executes

unfoldable pub rollback : World → ℕ → Bool → World × Result ℕ
rollback w t executes = conclude w t (v_rollback (w.transactions t).kind t) executes

-- The destructors of a connected transaction of one of the classes that roll back; `attempt` is the
-- answer of `attempt_rollback`. What `rollback_in_dtor` catches is dropped.
unfoldable pub destroy_open : World → ℕ → Bool → Bool → World
destroy_open w t attempt executes = if attempt then (rollback w t executes).0 else unlink w t

-- The destructor, when the last owner of the object is gone.
unfoldable pub destroy : World → ℕ → Bool → Bool → World
destroy w t attempt executes =
    if (w.transactions t).connected
    then elim (w.transactions t).kind [
      | autocommit ↦ unlink w t
      | guard ↦ unlink w t
      | _ ↦ destroy_open w t attempt executes
    ]
    else w
