-- ===== src/Connection/Names.antt =====
-- The set of the prepared statements of a connection.
use taopq.Base.{
  ℕ, ◌≡◌, inl, inr, refl, ap, sym, ◌∙◌, Bool, true, false, List, ◌++◌, Option, none, some,
  if◌then◌else◌, Bool-cases, Bytes, codes, Result, ok, throw, pq_error, connection_error,
  logic_error, invalid_argument,
}
use taopq.Base.Action.{Action, proceed}
use taopq.Connection.{
  Libpq, Connection, Notification, ResultStatus, empty_query, command_ok, tuples_ok, copy_out,
  copy_in, call, handle, libpq, expect, get_result, result_status,
}
use taopq.Connection.Frame.{Stable, bind-Keeps, libpq-Keeps, expect-Keeps, get_result-Keeps}
use taopq.Connection.QueryFrame.{
  consume_empty_result-Keeps, refuse-Keeps, transaction_get_result-Keeps,
}
use taopq.Connection.Prepared.{
  is_identifier, contains, insert, erase, check_prepared_name, send_params, with_direct, execute,
  expect_prepared, insert_prepared, erase_prepared, prepare, escape_identifier, find_prepared,
  deallocate,
}

-- The connection has these prepared statements, and no transaction is current or one is.
abbrev pub Has : {L H : Type 0} → List Bytes → Bool → Connection L H → Type 0
Has names used c = (c.prepared_statements ≡ names) × (c.in_use ≡ used)

handle-Has :
    {L H : Type 0} (names : List Bytes) (used : Bool) (c : Connection L H) (n : Notification)
    → Has names used c
    → Has names used (handle n c)
unfolding handle
handle-Has names used c n h = call-Has _ n _ (call-Has c.notification_handler n c h)
  where
    call-Has :
        {L H : Type 0} {names : List Bytes} {used : Bool} (o : Option H) (n : Notification)
        (c : Connection L H)
        → Has names used c
        → Has names used (call o n c)
    call-Has none n c h = unfold call in h
    call-Has (some x) n c h = unfold call in h

Has-Stable :
    {L H : Type 0} (names : List Bytes) (used : Bool) → Stable {L = L} {H = H} (Has names used)
Has-Stable names used = record {
  pgconn = λ c l h. h;
  handle = λ c n h. handle-Has names used c n h;
}

-- What became of the set: it has changed like this, or the call has thrown and it is as before.
unfoldable pub Changes :
    {L H A : Type 0}
    → (List Bytes → List Bytes)
    → Connection L H
    → Connection L H × Result A
    → Type 0
Changes change c (d, ok a) = d.prepared_statements ≡ change c.prepared_statements
Changes change c (d, throw e) = d.prepared_statements ≡ c.prepared_statements

module _ {L R H : Type 0} (pq : Libpq L R) (limit : ℕ) where
  -- Behind an action that keeps the set.
  proceed-Changes :
      {A B : Type 0} (change : List Bytes → List Bytes) (c : Connection L H)
      (q : Connection L H × Result A) (next : A → Action (Connection L H) B)
      → q.0.prepared_statements ≡ c.prepared_statements
      → ((a : A) (d : Connection L H)
          → d.prepared_statements ≡ c.prepared_statements
          → Changes change c (next a d))
      → Changes change c (proceed q next)
  unfolding Changes
  proceed-Changes change c (d, ok a) next h k = k a d h
  proceed-Changes change c (d, throw e) next h k = h

  kept :
      {A : Type 0} (m : Action (Connection L H) A)
      → ((used : Bool) (names : List Bytes) (c : Connection L H)
          → Has names used c
          → Has names used (m c).0)
      → (c d : Connection L H) → d.prepared_statements ≡ c.prepared_statements
      → (m d).0.prepared_statements ≡ c.prepared_statements
  kept m k c d h = (k d.in_use c.prepared_statements d (h, refl)).0

  -- An action that keeps the set, and what is behind it.
  after :
      {A B : Type 0} (change : List Bytes → List Bytes) (c d : Connection L H)
      (m : Action (Connection L H) A) (next : A → Action (Connection L H) B)
      → d.prepared_statements ≡ c.prepared_statements
      → ((used : Bool) (names : List Bytes) (x : Connection L H)
          → Has names used x
          → Has names used (m x).0)
      → ((a : A) (x : Connection L H)
          → x.prepared_statements ≡ c.prepared_statements
          → Changes change c (next a x))
      → Changes change c (proceed (m d) next)
  after change c d m next h k = proceed-Changes change c (m d) next (kept m k c d h)

  expect_prepared-Has :
      (st : ResultStatus) (used : Bool) (names : List Bytes) (c : Connection L H)
      → Has names used c
      → Has names used (expect_prepared pq limit st c).0
  unfolding expect_prepared
  expect_prepared-Has command_ok used names =
      consume_empty_result-Keeps pq limit (Has names used) (Has-Stable names used)
  expect_prepared-Has tuples_ok used names = λ c h. h
  expect_prepared-Has empty_query used names = λ c h. h
  expect_prepared-Has copy_in used names = λ c h. h
  expect_prepared-Has copy_out used names = λ c h. h
  expect_prepared-Has _ used names =
      refuse-Keeps pq limit (Has names used) (Has-Stable names used) (Unit {0}) pq_error

  insert_prepared-Changes :
      (name : Bytes) (c d : Connection L H)
      → d.prepared_statements ≡ c.prepared_statements
      → Changes (insert name) c (insert_prepared pq limit name d)
  unfolding Changes insert_prepared
  insert_prepared-Changes name c d h = ap (insert name) h

  erase_prepared-Changes :
      (name : Bytes) (c d : Connection L H)
      → d.prepared_statements ≡ c.prepared_statements
      → Changes (erase name) c (erase_prepared pq limit name d)
  unfolding Changes erase_prepared
  erase_prepared-Changes name c d h = ap (erase name) h

  send_params-Has :
      (statement : Bytes) (used : Bool) (names : List Bytes) (c : Connection L H)
      → Has names used c
      → Has names used (send_params pq limit statement c).0
  unfolding send_params
  send_params-Has statement used names c h =
      bind-Keeps pq limit (Has names used) (Has-Stable names used) (libpq _)
        (expect connection_error) (libpq-Keeps pq limit (Has names used) (Has-Stable names used) _)
        (expect-Keeps pq limit (Has names used) (Has-Stable names used) connection_error) c h

  with_direct-Has :
      {A : Type 0} (m : Action (Connection L H) A) (used : Bool) (names : List Bytes)
      (c : Connection L H)
      → ((d : Connection L H) → Has names true d → Has names true (m d).0)
      → Has names used c
      → Has names used (with_direct pq limit m c).0
  unfolding with_direct
  with_direct-Has {A = A} m used names c k h =
      free (m (record c { in_use = true })) c.in_use refl
        (k (record c { in_use = true }) (h.0, refl)).0
    where
      free :
          (p : Connection L H × Result A) (b : Bool)
          → c.in_use ≡ b
          → p.0.prepared_statements ≡ names
          → Has names used
              (if◌then◌else◌ {A = Connection L H × Result A} b
                (c, throw logic_error)
                (record p.0 { in_use = false }, p.1)).0
      free p true e q = h
      free p false e q = (q, sym e ∙ h.1)

  -- `execute` makes the connection free again, whatever happens.
  pub execute-Has :
      (statement : Bytes) (used : Bool) (names : List Bytes) (c : Connection L H)
      → Has names used c
      → Has names used (execute pq limit statement c).0
  unfolding execute
  execute-Has statement used names c = with_direct-Has _ used names c (
      bind-Keeps pq limit (Has names true) (Has-Stable names true) (send_params pq limit statement)
        _ (send_params-Has statement true names)
        (λ _. transaction_get_result-Keeps pq limit (Has names true) (Has-Stable names true) true))

  find_prepared-Has :
      (name : Bytes) (used : Bool) (names : List Bytes) (c : Connection L H)
      → Has names used c
      → Has names used (find_prepared pq limit name c).0
  unfolding find_prepared
  find_prepared-Has name used names c h = elim (Bool-cases (contains name c.prepared_statements)) [
    | inl e ↦ rw (e) h
    | inr e ↦ rw (e) h
  ]

  escape_identifier-Has :
      (name : Bytes) (used : Bool) (names : List Bytes) (c : Connection L H)
      → Has names used c
      → Has names used (escape_identifier pq limit name c).0
  unfolding escape_identifier
  escape_identifier-Has name used names c h = escaped-Has (pq.escape_identifier c.pgconn name) c h
    where
      escaped-Has :
          {used : Bool} {names : List Bytes} (o : Option Bytes) (c : Connection L H)
          → Has names used c
          → Has names used
              (elim o as (λ _. Connection L H × Result Bytes) [
                | none ↦ (c, throw invalid_argument)
                | some buffer ↦ (c, ok buffer)
              ]).0
      escaped-Has none c h = h
      escaped-Has (some b) c h = h

  check_prepared_name-Has :
      (name : Bytes) (used : Bool) (names : List Bytes) (c : Connection L H)
      → Has names used c
      → Has names used (check_prepared_name pq limit name c).0
  unfolding check_prepared_name
  check_prepared_name-Has name used names =
      expect-Keeps pq limit (Has names used) (Has-Stable names used) invalid_argument
        (is_identifier name)

  -- `deallocate` takes the name out of the set of the prepared statements, or throws and leaves the
  -- set.
  pub deallocate-Changes :
      (name : Bytes) (c : Connection L H) → Changes (erase name) c (deallocate pq limit name c)
  unfolding deallocate
  deallocate-Changes name c =
      after (erase name) c c (check_prepared_name pq limit name) _ refl
        (check_prepared_name-Has name)
        λ _ d h.
          after (erase name) c d (find_prepared pq limit name) _ h (find_prepared-Has name) λ _ d h.
            after (erase name) c d (escape_identifier pq limit name) _ h
              (escape_identifier-Has name)
              λ escaped d h.
                after (erase name) c d (execute pq limit (codes "DEALLOCATE " ++ escaped)) _ h
                  (execute-Has (codes "DEALLOCATE " ++ escaped))
                  λ _ d h. erase_prepared-Changes name c d h

  -- `prepare` puts the name into the set of the prepared statements, or throws and leaves the set.
  pub prepare-Changes :
      (name statement : Bytes) (c : Connection L H)
      → Changes (insert name) c (prepare pq limit name statement c)
  unfolding prepare
  prepare-Changes name statement c =
      after (insert name) c c (check_prepared_name pq limit name) _ refl
        (check_prepared_name-Has name)
        λ _ d h.
          after (insert name) c d (libpq (λ l. pq.send_prepare l name statement)) _ h
            (λ u ns.
              libpq-Keeps pq limit (Has ns u) (Has-Stable ns u)
                (λ l. pq.send_prepare l name statement))
            λ sent d h.
              after (insert name) c d (expect connection_error sent) _ h
                (λ u ns. expect-Keeps pq limit (Has ns u) (Has-Stable ns u) connection_error sent)
                λ _ d h.
                  after (insert name) c d (get_result pq limit) _ h
                    (λ u ns. get_result-Keeps pq limit (Has ns u) (Has-Stable ns u))
                    λ r d h.
                      after (insert name) c d (expect_prepared pq limit (result_status pq r)) _ h
                        (expect_prepared-Has (result_status pq r))
                        λ _ d h. insert_prepared-Changes name c d h
