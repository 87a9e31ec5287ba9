-- ===== src/Connection/QueryFrame.antt =====
-- What `transaction_base::get_result` and the COPY functions do not touch.
use taopq.Base.{
  ℕ, zero, suc, Bool, true, false, Option, none, some, Bytes, Error, runtime_error, pq_error,
  logic_error,
}
use taopq.Base.Action.{Action, pure, fail}
use taopq.Connection.{
  Libpq, Connection, ResultStatus, command_ok, tuples_ok, copy_out, copy_in, fatal_error,
  single_tuple, tuples_chunk, pipeline_sync, pipeline_aborted, CopyData, received, not_yet, ended,
  refused, CopyPut, taken, full, rejected, expect, libpq, wait, get_result, expect_fatal_error,
  get_fatal_error, expect_nothing, consume_empty_result,
}
use taopq.Connection.Copy.{
  get_copy_round, get_copy_loop, get_copy_data, put_copy_round, put_copy_loop, put_copy_end,
  clear_round, clear_loop, clear_copy_data, cancel,
}
use taopq.Connection.Query.{
  construct, conclude, stop_copy_out, by_status, obtained, transaction_get_result, refuse,
}
use taopq.Connection.Frame.{
  Stable, Keeps, bind-Keeps, libpq-Keeps, expect-Keeps, wait-Keeps, get_result-Keeps,
}

module _ {L R H : Type 0} (pq : Libpq L R) (limit : ℕ) (P : Connection L H → Type 0)
    (p : Stable P) where
  pub consume_empty_result-Keeps : Keeps pq limit P p (consume_empty_result pq limit)
  unfolding consume_empty_result
  consume_empty_result-Keeps =
      bind-Keeps pq limit P p (get_result pq limit) (expect_nothing pq limit)
        (get_result-Keeps pq limit P p) expect_nothing-Keeps
    where
      expect_nothing-Keeps : (o : Option R) → Keeps pq limit P p (expect_nothing pq limit o)
      expect_nothing-Keeps none c h = unfold expect_nothing in h
      expect_nothing-Keeps (some r) c h = unfold expect_nothing in h

  get_fatal_error-Keeps : Keeps pq limit P p (get_fatal_error pq limit)
  unfolding get_fatal_error
  get_fatal_error-Keeps =
      bind-Keeps pq limit P p (get_result pq limit) (expect_fatal_error pq limit)
        (get_result-Keeps pq limit P p) expect_fatal_error-Keeps
    where
      by_status-P :
          (st : ResultStatus) (r : R) (c : Connection L H)
          → P c
          → P
              (elim st as (λ _. Action (Connection L H) R) [
                | fatal_error ↦ pure r
                | _ ↦ fail runtime_error
              ]
                c).0
      by_status-P fatal_error r c h = h
      by_status-P _ r c h = h

      expect_fatal_error-Keeps : (o : Option R) → Keeps pq limit P p (expect_fatal_error pq limit o)
      expect_fatal_error-Keeps none c h = unfold expect_fatal_error in h
      expect_fatal_error-Keeps (some r) c h =
          unfold expect_fatal_error in by_status-P (pq.status r) r c h

  put_copy_loop-Keeps :
      (put : L → L × CopyPut) (fuel : ℕ) → Keeps pq limit P p (put_copy_loop pq limit put fuel)
  unfolding put_copy_loop
  put_copy_loop-Keeps put zero = λ c h. h
  put_copy_loop-Keeps put (suc fuel) =
      bind-Keeps pq limit P p (libpq put)
        (put_copy_round pq limit (put_copy_loop pq limit put fuel)) (libpq-Keeps pq limit P p put)
        (put_copy_round-Keeps _ (put_copy_loop-Keeps put fuel))
    where
      put_copy_round-Keeps :
          (more : Action (Connection L H) (Unit {0}))
          → Keeps pq limit P p more
          → (a : CopyPut) → Keeps pq limit P p (put_copy_round pq limit more a)
      put_copy_round-Keeps more k taken = unfold put_copy_round in λ c h. h
      put_copy_round-Keeps more k full =
          unfold put_copy_round in
          bind-Keeps pq limit P p (wait pq limit true) (λ _. more) (wait-Keeps pq limit P p true)
            (λ _. k)
      put_copy_round-Keeps more k rejected = unfold put_copy_round in λ c h. h

  get_copy_loop-Keeps : (fuel : ℕ) → Keeps pq limit P p (get_copy_loop pq limit fuel)
  unfolding get_copy_loop
  get_copy_loop-Keeps zero = λ c h. h
  get_copy_loop-Keeps (suc fuel) =
      bind-Keeps pq limit P p (libpq pq.get_copy_data)
        (get_copy_round pq limit (get_copy_loop pq limit fuel))
        (libpq-Keeps pq limit P p pq.get_copy_data)
        (get_copy_round-Keeps _ (get_copy_loop-Keeps fuel))
    where
      get_copy_round-Keeps :
          (more : Action (Connection L H) (Option Bytes))
          → Keeps pq limit P p more
          → (a : CopyData) → Keeps pq limit P p (get_copy_round pq limit more a)
      get_copy_round-Keeps more k (received b) = unfold get_copy_round in λ c h. h
      get_copy_round-Keeps more k not_yet =
          unfold get_copy_round in
          bind-Keeps pq limit P p (wait pq limit false) (λ _. more) (wait-Keeps pq limit P p false)
            (λ _. k)
      get_copy_round-Keeps more k ended = unfold get_copy_round in λ c h. h
      get_copy_round-Keeps more k refused = unfold get_copy_round in λ c h. h

  clear_loop-Keeps : (fuel : ℕ) → Keeps pq limit P p (clear_loop pq limit fuel)
  unfolding clear_loop get_copy_data
  clear_loop-Keeps zero = λ c h. h
  clear_loop-Keeps (suc fuel) =
      bind-Keeps pq limit P p (get_copy_data pq limit)
        (clear_round pq limit (clear_loop pq limit fuel)) (get_copy_loop-Keeps limit)
        (clear_round-Keeps _ (clear_loop-Keeps fuel))
    where
      clear_round-Keeps :
          (more : Action (Connection L H) (Unit {0}))
          → Keeps pq limit P p more
          → (a : Option Bytes) → Keeps pq limit P p (clear_round pq limit more a)
      clear_round-Keeps more k none = unfold clear_round in λ c h. h
      clear_round-Keeps more k (some b) = unfold clear_round in k

  construct-Keeps : {A : Type 0} (st : ResultStatus) (r : A) → Keeps pq limit P p (construct st r)
  unfolding construct
  construct-Keeps command_ok r = λ c h. h
  construct-Keeps tuples_ok r = λ c h. h
  construct-Keeps single_tuple r = λ c h. h
  construct-Keeps tuples_chunk r = λ c h. h
  construct-Keeps pipeline_sync r = λ c h. h
  construct-Keeps pipeline_aborted r = λ c h. h
  construct-Keeps _ r = λ c h. h

  conclude-Keeps : (r : R) → Keeps pq limit P p (conclude pq limit r)
  unfolding conclude
  conclude-Keeps r =
      bind-Keeps pq limit P p (consume_empty_result pq limit) _ consume_empty_result-Keeps
        (λ _. construct-Keeps (pq.status r) r)

  pub refuse-Keeps : (A : Type 0) (e : Error) → Keeps pq limit P p (refuse pq limit {A = A} e)
  unfolding refuse
  refuse-Keeps A e =
      bind-Keeps pq limit P p (consume_empty_result pq limit) (λ _. fail e)
        consume_empty_result-Keeps (λ _ c h. h)

  pub stop_copy_out-Keeps : (A : Type 0) → Keeps pq limit P p (stop_copy_out pq limit {A = A})
  unfolding stop_copy_out cancel clear_copy_data refuse
  stop_copy_out-Keeps A =
      bind-Keeps pq limit P p (cancel pq limit) _
        (bind-Keeps pq limit P p (libpq pq.cancel) _ (libpq-Keeps pq limit P p pq.cancel)
          (λ b. expect-Keeps pq limit P p pq_error b))
        (λ _. bind-Keeps pq limit P p (clear_copy_data pq limit) _ (clear_loop-Keeps limit) (λ _.
          bind-Keeps pq limit P p (get_fatal_error pq limit) _ get_fatal_error-Keeps
            (λ _. refuse-Keeps A runtime_error)))

  by_status-Keeps : (st : ResultStatus) (r : R) → Keeps pq limit P p (by_status pq limit st r)
  unfolding by_status put_copy_end
  by_status-Keeps copy_in r =
      bind-Keeps pq limit P p (put_copy_end pq limit _) _ (put_copy_loop-Keeps _ limit) (λ _.
        bind-Keeps pq limit P p (get_fatal_error pq limit) _ get_fatal_error-Keeps conclude-Keeps)
  by_status-Keeps copy_out r = stop_copy_out-Keeps R
  by_status-Keeps single_tuple r = construct-Keeps single_tuple r
  by_status-Keeps tuples_chunk r = construct-Keeps tuples_chunk r
  by_status-Keeps _ r = conclude-Keeps r

  pub transaction_get_result-Keeps :
      (b : Bool) → Keeps pq limit P p (transaction_get_result pq limit b)
  unfolding transaction_get_result
  transaction_get_result-Keeps b =
      bind-Keeps pq limit P p (expect logic_error b) _ (expect-Keeps pq limit P p logic_error b)
        (λ _.
          bind-Keeps pq limit P p (get_result pq limit) _ (get_result-Keeps pq limit P p)
            obtained-Keeps)
    where
      obtained-Keeps : (o : Option R) → Keeps pq limit P p (obtained pq limit o)
      obtained-Keeps none = unfold obtained in λ c h. h
      obtained-Keeps (some r) = unfold obtained in by_status-Keeps (pq.status r) r
