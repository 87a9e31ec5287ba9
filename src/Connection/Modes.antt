-- ===== src/Connection/Modes.antt =====
-- In which state table readers and writers leave the connection.
use taopq.Base.{ℕ, ◌≡◌, refl, Bool, Option, none, Bytes, Error, ok, ap, subst, ◌∙◌}
use taopq.Base.Action.{fail-ok, pure-ok, proceed-ok}
use taopq.Decode.{FromChars}
use taopq.Connection.{
  Libpq, Connection, ResultStatus, copy_out, copy_in, get_result, get_fatal_error,
  consume_empty_result, result_status,
}
use taopq.Connection.Copy.{put_copy_end, cancel, clear_copy_data}
use taopq.Connection.Query.{
  transaction_get_result, stop_copy_out, refuse, expect_copy_in, writer_check_result,
  expect_copy_out, reader_check_result,
}
use taopq.Connection.Drained.{Got, transaction_get_result-Got}
use taopq.Connection.Tables.{rows_affected, answer, writer_commit}

module _ {L R H : Type 0} (pq : Libpq L R) (limit : ℕ) where
  refuse-ok :
      {A : Type 0} (e : Error) (c d : Connection L H) (a : A) → refuse pq limit e d ≡ (c, ok a) → ⊥
  unfolding refuse
  refuse-ok x c d a h =
      let (s, t, e, f) = proceed-ok (consume_empty_result pq limit d) _ h in fail-ok f

  stop_copy_out-ok :
      {A : Type 0} (c d : Connection L H) (a : A) → stop_copy_out pq limit d ≡ (c, ok a) → ⊥
  unfolding stop_copy_out
  stop_copy_out-ok c d a h =
      let (s, t, e, f) = proceed-ok (cancel pq limit d) _ h in
      let (s', t', e', f') = proceed-ok (clear_copy_data pq limit s) _ f in
      let (u, x, g, k) = proceed-ok (get_fatal_error pq limit s') _ f' in
      let (u', x', g', k') = proceed-ok (consume_empty_result pq limit u) _ k in fail-ok k'

  expect_copy_in-ok :
      (st : ResultStatus) (c d : Connection L H) (t : Unit {0})
      → expect_copy_in pq limit st d ≡ (c, ok t)
      → (st ≡ copy_in) × (d ≡ c)
  unfolding expect_copy_in
  expect_copy_in-ok copy_in c d t h = (refl, (pure-ok h).0)
  expect_copy_in-ok copy_out c d t h = absurd (stop_copy_out-ok c d t h)
  expect_copy_in-ok _ c d t h = absurd (refuse-ok _ c d t h)

  expect_copy_out-ok :
      (is_current : Bool) (st : ResultStatus) (c d : Connection L H) (t : Unit {0})
      → expect_copy_out pq limit is_current st d ≡ (c, ok t)
      → (st ≡ copy_out) × (d ≡ c)
  unfolding expect_copy_out
  expect_copy_out-ok b copy_out c d t h = (refl, (pure-ok h).0)
  expect_copy_out-ok b copy_in c d t h =
      let (s, q, e, f) = proceed-ok (transaction_get_result pq limit b d) _ h in absurd (fail-ok f)
  expect_copy_out-ok b _ c d t h = absurd (refuse-ok _ c d t h)

  -- A table writer is only made when the server has answered that it is ready for the data of
  -- COPY FROM, and that is the last that was received.
  pub writer_check_result-copy_in :
      (c d : Connection L H) (t : Unit {0})
      → writer_check_result pq limit c ≡ (d, ok t)
      → (o : Option R) × (get_result pq limit c ≡ (d, ok o)) × (result_status pq o ≡ copy_in)
  unfolding writer_check_result
  writer_check_result-copy_in c d t h =
      let (s, o, e, f) = proceed-ok (get_result pq limit c) _ h in
      let (k, q) = expect_copy_in-ok (result_status pq o) d s t f in
      (o, e ∙ ap (λ x. (x, ok o)) q, k)

  -- A table reader is only made when the server has answered that it sends the data of COPY TO, and
  -- that is the last that was received.
  pub reader_check_result-copy_out :
      (is_current : Bool) (c d : Connection L H) (t : Unit {0})
      → reader_check_result pq limit is_current c ≡ (d, ok t)
      → (o : Option R) × (get_result pq limit c ≡ (d, ok o)) × (result_status pq o ≡ copy_out)
  unfolding reader_check_result
  reader_check_result-copy_out b c d t h =
      let (s, o, e, f) = proceed-ok (get_result pq limit c) _ h in
      let (k, q) = expect_copy_out-ok b (result_status pq o) d s t f in
      (o, e ∙ ap (λ x. (x, ok o)) q, k)

  -- The number that `commit` of a table writer gives is read from a result of a status that stands
  -- for success; and unless that is a part of a result, the last result that was taken from the
  -- connection is the null pointer that ends the statement.
  pub writer_commit-Got :
      (std : Bytes → FromChars ℕ) (is_current : Bool) (c d : Connection L H) (n : ℕ)
      → writer_commit pq limit std is_current c ≡ (d, ok n)
      → (r : R) × (rows_affected pq std r ≡ ok n) × Got pq limit r d
  unfolding writer_commit answer
  writer_commit-Got std b c d n h =
      let (s, t, e, f) = proceed-ok (put_copy_end pq limit none c) _ h in
      let (u, r, g, k) = proceed-ok (transaction_get_result pq limit b s) _ f in
      let q = ap (λ p. p.0) k in
      (
        r,
        ap (λ p. p.1) k,
        subst (Got pq limit r) q (transaction_get_result-Got pq limit b r u s g).1,
      )
