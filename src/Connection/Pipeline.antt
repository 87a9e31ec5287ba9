-- ===== src/Connection/Pipeline.antt =====
-- Pipeline mode, single row mode and the status of a transaction: src/lib/pq/connection.cpp and
-- src/lib/pq/transaction_base.cpp.
use taopq.Base.{
  ℕ, ◌≡◌, refl, ap, ◌∙◌, Bool, true, false, Option, none, some, Error, ok, logic_error,
  runtime_error, connection_error,
}
use taopq.Base.Action.{Action, fail, ◌>>=◌, ◌>>◌, fail-ok, pure-ok, proceed-ok}
use taopq.Connection.{
  Libpq, Connection, ResultStatus, pipeline_sync, TransactionStatus, idle, in_transaction, active,
  error, unknown, libpq, expect, get_result,
}

-- `attempt_rollback`.
unfoldable pub rolls_back : TransactionStatus → Bool
rolls_back idle = false
rolls_back active = false
rolls_back in_transaction = true
rolls_back error = true
rolls_back unknown = true

unfoldable pub attempt_rollback : {L R H : Type 0} → Libpq L R → Connection L H → Bool
attempt_rollback pq c = rolls_back (pq.transaction_status c.pgconn)

-- The test of `consume_pipeline_sync`.
unfoldable pub is_sync : ResultStatus → Bool
is_sync pipeline_sync = true
is_sync _ = false

is_sync-pipeline_sync : (st : ResultStatus) → is_sync st ≡ true → st ≡ pipeline_sync
unfolding is_sync
is_sync-pipeline_sync pipeline_sync h = refl
is_sync-pipeline_sync _ h = cc

module _ {L R H : Type 0} (pq : Libpq L R) (limit : ℕ) where
  unfoldable pub enter_pipeline_mode : Action (Connection L H) (Unit {0})
  enter_pipeline_mode = do result ← libpq pq.enter_pipeline_mode; expect connection_error result

  unfoldable pub exit_pipeline_mode : Action (Connection L H) (Unit {0})
  exit_pipeline_mode = do result ← libpq pq.exit_pipeline_mode; expect connection_error result

  unfoldable pub send_sync : Action (Connection L H) (Unit {0})
  send_sync = do result ← libpq pq.pipeline_sync; expect connection_error result

  -- `is_current` is the test of `check_current_transaction`.
  unfoldable pub set_single_row_mode : Bool → Action (Connection L H) (Unit {0})
  set_single_row_mode is_current = do
    expect logic_error is_current
    result ← libpq pq.set_single_row_mode
    expect runtime_error result

  unfoldable pub expect_sync : Option R → Action (Connection L H) (Unit {0})
  expect_sync none = fail runtime_error
  expect_sync (some r) = expect runtime_error (is_sync (pq.status r))

  unfoldable pub consume_pipeline_sync : Bool → Action (Connection L H) (Unit {0})
  consume_pipeline_sync is_current = do
    expect logic_error is_current
    result ← get_result pq limit
    expect_sync result

  expect-ok :
      (e : Error) (b : Bool) (c d : Connection L H) (t : Unit {0})
      → expect e b d ≡ (c, ok t)
      → (b ≡ true) × (d ≡ c)
  unfolding expect
  expect-ok e true c d t h = (refl, (pure-ok h).0)
  expect-ok e false c d t h = absurd (fail-ok h)

  expect_sync-some :
      (o : Option R) (c d : Connection L H) (t : Unit {0})
      → expect_sync o d ≡ (c, ok t)
      → (r : R) × (o ≡ some r) × (pq.status r ≡ pipeline_sync) × (d ≡ c)
  unfolding expect_sync
  expect_sync-some none c d t h = absurd (fail-ok h)
  expect_sync-some (some r) c d t h =
      let (e, q) = expect-ok runtime_error (is_sync (pq.status r)) c d t h in
      (r, refl, is_sync-pipeline_sync (pq.status r) e, q)

  -- `consume_pipeline_sync` only returns to the current transaction, and when the very next result of
  -- the connection is the one of a synchronisation point.
  pub consume_pipeline_sync_lem :
      (is_current : Bool) (c d : Connection L H) (t : Unit {0})
      → consume_pipeline_sync is_current c ≡ (d, ok t)
      → (is_current ≡ true)
        × (r : R) × (get_result pq limit c ≡ (d, ok (some r)))
        × (pq.status r ≡ pipeline_sync)
  unfolding consume_pipeline_sync
  consume_pipeline_sync_lem b c d t h =
      let (s, u, e, f) = proceed-ok (expect logic_error b c) _ h in
      let (i, q) = expect-ok logic_error b s c u e in
      let (s', o, e', f') = proceed-ok (get_result pq limit s) _ f in
      let (r, k, w, q') = expect_sync-some o d s' t f' in
      (i, r, ap (get_result pq limit) q ∙ e' ∙ ap (λ x. (x, ok o)) q' ∙ ap (λ x. (d, ok x)) k, w)
