-- ===== src/Connection/Drained.antt =====
-- What is left on a connection when `transaction_base::get_result` has given a result.
use taopq.Base.{
  ℕ, ◌≡◌, ◌⊎◌, inl, inr, refl, ap, sym, ◌∙◌, subst, Bool, true, false, Option, none, some, ok,
}
use taopq.Base.Action.{pure, fail-ok, pure-ok, proceed-ok}
use taopq.Connection.{
  Libpq, Connection, ResultStatus, command_ok, tuples_ok, copy_out, copy_in, single_tuple,
  tuples_chunk, pipeline_sync, pipeline_aborted, expect, get_result, expect_nothing,
  get_fatal_error, consume_empty_result,
}
use taopq.Connection.Copy.{put_copy_end, cancel, clear_copy_data}
use taopq.Connection.Query.{
  construct, conclude, stop_copy_out, by_status, obtained, transaction_get_result,
}

-- The statuses that the constructor of `result` accepts.
unfoldable pub is_success : ResultStatus → Bool
is_success command_ok = true
is_success tuples_ok = true
is_success single_tuple = true
is_success tuples_chunk = true
is_success pipeline_sync = true
is_success pipeline_aborted = true
is_success _ = false

-- The statuses of a part of a result.
unfoldable pub is_part : ResultStatus → Bool
is_part single_tuple = true
is_part tuples_chunk = true
is_part _ = false

module _ {L R H : Type 0} (pq : Libpq L R) (limit : ℕ) where
  -- The last result that was asked for was the null pointer, the end of the statement.
  abbrev pub Drained : Connection L H → Type 0
  Drained c = (d : Connection L H) × (get_result pq limit d ≡ (c, ok none))

  -- What the caller gets.
  abbrev pub Got : R → Connection L H → Type 0
  Got r c = (is_success (pq.status r) ≡ true) × ((is_part (pq.status r) ≡ true) ⊎ Drained c)

  accepted :
      {r q : R} {c d : Connection L H} {A : Type 0}
      → (a : A) → pure r d ≡ (c, ok q)
      → A × (d ≡ c) × (r ≡ q)
  accepted a h = let (e, f) = pure-ok h in (a, e, f)

  construct-is_success :
      (st : ResultStatus) (r q : R) (c d : Connection L H)
      → construct st r d ≡ (c, ok q)
      → (is_success st ≡ true) × (d ≡ c) × (r ≡ q)
  unfolding construct is_success
  construct-is_success command_ok r q c d h = accepted refl h
  construct-is_success tuples_ok r q c d h = accepted refl h
  construct-is_success single_tuple r q c d h = accepted refl h
  construct-is_success tuples_chunk r q c d h = accepted refl h
  construct-is_success pipeline_sync r q c d h = accepted refl h
  construct-is_success pipeline_aborted r q c d h = accepted refl h
  construct-is_success _ r q c d h = absurd (fail-ok h)

  expect_nothing-none :
      (o : Option R) (c d : Connection L H) (t : Unit {0})
      → expect_nothing pq limit o d ≡ (c, ok t)
      → (o ≡ none) × (d ≡ c)
  unfolding expect_nothing
  expect_nothing-none none c d t h = (refl, ap (λ p. p.0) h)
  expect_nothing-none (some r) c d t h = absurd (fail-ok h)

  consume_empty_result-Drained :
      (c d : Connection L H) (t : Unit {0})
      → consume_empty_result pq limit d ≡ (c, ok t)
      → Drained c
  unfolding consume_empty_result
  consume_empty_result-Drained c d t h =
      let (s, o, e, f) = proceed-ok (get_result pq limit d) (expect_nothing pq limit) h in
      let (n, q) = expect_nothing-none o c s t f in (d, rw (n, q) at e)

  conclude-Got : (r q : R) (c d : Connection L H) → conclude pq limit r d ≡ (c, ok q) → Got q c
  unfolding conclude
  conclude-Got r q c d h =
      let (s, t, e, f) =
        proceed-ok (consume_empty_result pq limit d) (λ _. construct (pq.status r) r) h in
      let (g, k, m) = construct-is_success (pq.status r) r q c s f in
      (
        subst (λ x. is_success (pq.status x) ≡ true) m g,
        inr (subst Drained k (consume_empty_result-Drained s d t e)),
      )

  by_status-Got :
      (st : ResultStatus) (r q : R) (c d : Connection L H)
      → pq.status r ≡ st
      → by_status pq limit st r d ≡ (c, ok q)
      → Got q c
  unfolding by_status stop_copy_out is_part
  by_status-Got copy_in r q c d w h =
      let (s, t, e, f) = proceed-ok (put_copy_end pq limit _ d) _ h in
      let (u, x, g, k) = proceed-ok (get_fatal_error pq limit s) _ f in conclude-Got x q c u k
  by_status-Got copy_out r q c d w h =
      let (s, t, e, f) = proceed-ok (cancel pq limit d) _ h in
      let (s', t', e', f') = proceed-ok (clear_copy_data pq limit s) _ f in
      let (u, x, g, k) = proceed-ok (get_fatal_error pq limit s') _ f' in
      let (u', x', g', k') = proceed-ok (consume_empty_result pq limit u) _ k in absurd (fail-ok k')
  by_status-Got single_tuple r q c d w h =
      let (g, k, m) = construct-is_success single_tuple r q c d h in
      let e : pq.status q ≡ single_tuple = ap pq.status (sym m) ∙ w in (rw (e) g, inl (rw (e) refl))
  by_status-Got tuples_chunk r q c d w h =
      let (g, k, m) = construct-is_success tuples_chunk r q c d h in
      let e : pq.status q ≡ tuples_chunk = ap pq.status (sym m) ∙ w in (rw (e) g, inl (rw (e) refl))
  by_status-Got _ r q c d w h = conclude-Got r q c d h

  pub transaction_get_result-Got :
      (is_current : Bool) (q : R) (c d : Connection L H)
      → transaction_get_result pq limit is_current d ≡ (c, ok q)
      → (is_current ≡ true) × Got q c
  unfolding transaction_get_result expect obtained
  transaction_get_result-Got false q c d h = absurd (fail-ok h)
  transaction_get_result-Got true q c d h =
      let (s, o, e, f) = proceed-ok (get_result pq limit d) (obtained pq limit) h in
      (refl, obtained-Got o q c s f)
    where
      obtained-Got :
          (o : Option R) (q : R) (c d : Connection L H)
          → obtained pq limit o d ≡ (c, ok q)
          → Got q c
      obtained-Got none q c d h = absurd (fail-ok h)
      obtained-Got (some r) q c d h = by_status-Got (pq.status r) r q c d refl h
