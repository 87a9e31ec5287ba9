-- ===== src/Connection/Prepared.antt =====
-- Prepared statements and `execute`: `is_identifier`, `check_prepared_name`, `send_params`, `prepare`
-- and `deallocate` of src/lib/pq/connection.cpp, and `execute` of connection.hpp for a statement
-- without parameters.
use taopq.Base.{
  ℕ, Bool, true, false, not, ◌&&◌, List, [], ◌∷◌, ◌++◌, none, some, if◌then◌else◌, leb, Bytes,
  bytes_eq, codes, member, ok, throw, overrun, pq_error, connection_error, runtime_error,
  logic_error, invalid_argument,
}
use taopq.Base.Action.{Action, fail, ◌>>=◌, ◌>>◌}
use taopq.Connection.{
  Libpq, Connection, ResultStatus, empty_query, command_ok, tuples_ok, copy_out, copy_in, libpq,
  expect, get_result, result_status, consume_empty_result,
}
use taopq.Connection.Query.{transaction_get_result, refuse}

abbrev identifier_bytes : Bytes
identifier_bytes = codes "abcdefghijklmnopqrstuvwxyzABCDEFGHIJKLMNOPQRSTUVWXYZ0123456789_"

-- `find_first_not_of` finds nothing.
unfoldable pub all_of : Bytes → Bytes → Bool
all_of bytes [] = true
all_of bytes (c ∷ s) = member c bytes && all_of bytes s

-- `std::isdigit`.
unfoldable pub is_digit : ℕ → Bool
is_digit c = leb b'0' c && leb c b'9'

unfoldable pub is_identifier : Bytes → Bool
is_identifier [] = false
is_identifier (c ∷ s) = not (is_digit c) && all_of identifier_bytes (c ∷ s)

-- A set of strings is a list without an order: `contains`, `insert` and `erase`.
unfoldable pub contains : Bytes → List Bytes → Bool
contains s [] = false
contains s (t ∷ ts) = let rest = contains s ts in if bytes_eq s t then true else rest

unfoldable pub insert : Bytes → List Bytes → List Bytes
insert s ts = if contains s ts then ts else s ∷ ts

unfoldable pub erase : Bytes → List Bytes → List Bytes
erase s [] = []
erase s (t ∷ ts) = let rest = erase s ts in if bytes_eq s t then rest else t ∷ rest

module _ {L R H : Type 0} (pq : Libpq L R) (limit : ℕ) where
  unfoldable pub check_prepared_name : Bytes → Action (Connection L H) (Unit {0})
  check_prepared_name name = expect invalid_argument (is_identifier name)

  -- `send_params` without parameters.
  unfoldable pub send_params : Bytes → Action (Connection L H) (Unit {0})
  send_params statement c =
      (do
        result ← libpq (λ l.
            if contains statement c.prepared_statements
            then pq.send_query_prepared l statement
            else pq.send_query_params l statement)
        expect connection_error result)
        c

  -- The constructor and the destructor of an `autocommit_transaction` around its use.
  unfoldable pub with_direct : {A : Type 0} → Action (Connection L H) A → Action (Connection L H) A
  with_direct m c =
      let (d, r) = m (record c { in_use = true }) in
      if c.in_use then (c, throw logic_error) else (record d { in_use = false }, r)

  unfoldable pub execute : Bytes → Action (Connection L H) R
  execute statement = with_direct do send_params statement; transaction_get_result pq limit true

  -- The result of `PQsendPrepare`.
  unfoldable pub expect_prepared : ResultStatus → Action (Connection L H) (Unit {0})
  expect_prepared command_ok = consume_empty_result pq limit
  expect_prepared tuples_ok = fail overrun
  expect_prepared empty_query = fail overrun
  expect_prepared copy_in = fail overrun
  expect_prepared copy_out = fail overrun
  expect_prepared _ = refuse pq limit pq_error

  unfoldable pub insert_prepared : Bytes → Action (Connection L H) (Unit {0})
  insert_prepared name c =
      (record c { prepared_statements = insert name c.prepared_statements }, ok tt)

  unfoldable pub erase_prepared : Bytes → Action (Connection L H) (Unit {0})
  erase_prepared name c =
      (record c { prepared_statements = erase name c.prepared_statements }, ok tt)

  unfoldable pub prepare : Bytes → Bytes → Action (Connection L H) (Unit {0})
  prepare name statement = do
    check_prepared_name name
    sent ← libpq (λ l. pq.send_prepare l name statement)
    expect connection_error sent
    result ← get_result pq limit
    expect_prepared (result_status pq result)
    insert_prepared name

  -- `escape_identifier`, which throws where libpq gives no buffer.
  unfoldable pub escape_identifier : Bytes → Action (Connection L H) Bytes
  escape_identifier identifier c = elim (pq.escape_identifier c.pgconn identifier) [
    | none ↦ (c, throw invalid_argument)
    | some buffer ↦ (c, ok buffer)
  ]

  unfoldable pub find_prepared : Bytes → Action (Connection L H) (Unit {0})
  find_prepared name c =
      if contains name c.prepared_statements then (c, ok tt) else (c, throw runtime_error)

  unfoldable pub deallocate : Bytes → Action (Connection L H) (Unit {0})
  deallocate name = do
    check_prepared_name name
    find_prepared name
    escaped ← escape_identifier name
    _ ← execute (codes "DEALLOCATE " ++ escaped)
    erase_prepared name

  -- `listen`, `unlisten` and `notify` without a payload.
  unfoldable pub execute_on : Bytes → Bytes → Action (Connection L H) R
  execute_on statement channel = do
    escaped ← escape_identifier channel
    execute (statement ++ escaped)

  unfoldable pub listen : Bytes → Action (Connection L H) R
  listen channel = execute_on (codes "LISTEN ") channel

  unfoldable pub unlisten : Bytes → Action (Connection L H) R
  unlisten channel = execute_on (codes "UNLISTEN ") channel

  unfoldable pub notify : Bytes → Action (Connection L H) R
  notify channel = execute_on (codes "NOTIFY ") channel
