-- ===== src/Connection/Identifiers.antt =====
-- Which texts are taken for the name of a prepared statement.
use taopq.Base.{
  ℕ, ◌≡◌, refl, ap, sym, subst, true, false, List, [], ◌∷◌, All, Bool-cases, inl, inr, Bytes,
  bytes_eq, bytes_eq_sound, Result, ok, throw, invalid_argument, connection_error,
}
use taopq.Connection.{Libpq, Connection, expect, libpq}
use taopq.Connection.Names.{Changes, prepare-Changes, deallocate-Changes, execute-Has}
use taopq.Connection.Prepared.{
  is_identifier, contains, insert, erase, check_prepared_name, send_params, execute, prepare,
  deallocate,
}

-- The calls on a connection that send a statement or change the set, whatever they end with.
pub data Request : Type 0 where
  prepare_as : Bytes → Bytes → Request
  deallocate_of execute_of : Bytes → Request

abbrev AreIdentifiers : List Bytes → Type 0
AreIdentifiers = All (λ s. is_identifier s ≡ true)

erase-AreIdentifiers :
    (s : Bytes) (ts : List Bytes) → AreIdentifiers ts → AreIdentifiers (erase s ts)
unfolding erase
erase-AreIdentifiers s [] h = tt
erase-AreIdentifiers s (t ∷ ts) (i, h) = elim (Bool-cases (bytes_eq s t)) [
  | inl e ↦ rw (e) (erase-AreIdentifiers s ts h)
  | inr e ↦ rw (e) (i, erase-AreIdentifiers s ts h)
]

insert-AreIdentifiers :
    (s : Bytes) (ts : List Bytes)
    → is_identifier s ≡ true
    → AreIdentifiers ts
    → AreIdentifiers (insert s ts)
unfolding insert
insert-AreIdentifiers s ts i h = elim (Bool-cases (contains s ts)) [
  | inl e ↦ rw (e) h
  | inr e ↦ rw (e) (i, h)
]

contains-AreIdentifiers :
    (s : Bytes) (ts : List Bytes)
    → is_identifier s ≡ false
    → AreIdentifiers ts
    → contains s ts ≡ false
unfolding contains
contains-AreIdentifiers s [] i h = refl
contains-AreIdentifiers s (t ∷ ts) i (j, h) = elim (Bool-cases (bytes_eq s t)) [
  | inl e ↦ let k = ap is_identifier (bytes_eq_sound s t e) in cc
  | inr e ↦ rw (e) (contains-AreIdentifiers s ts i h)
]

module _ {L R H : Type 0} (pq : Libpq L R) (limit : ℕ) where
  unfoldable pub serve : Request → Connection L H → Connection L H
  serve (prepare_as name statement) c = (prepare pq limit name statement c).0
  serve (deallocate_of name) c = (deallocate pq limit name c).0
  serve (execute_of statement) c = (execute pq limit statement c).0

  unfoldable pub serve_all : List Request → Connection L H → Connection L H
  serve_all [] c = c
  serve_all (q ∷ qs) c = serve_all qs (serve q c)

  changed-AreIdentifiers :
      {A : Type 0} (change : List Bytes → List Bytes) (c : Connection L H)
      (p : Connection L H × Result A)
      → Changes change c p
      → AreIdentifiers c.prepared_statements
      → AreIdentifiers (change c.prepared_statements)
      → AreIdentifiers p.0.prepared_statements
  unfolding Changes
  changed-AreIdentifiers change c (d, ok a) e h k = subst AreIdentifiers (sym e) k
  changed-AreIdentifiers change c (d, throw x) e h k = subst AreIdentifiers (sym e) h

  prepare-refused :
      (name statement : Bytes) (c : Connection L H)
      → is_identifier name ≡ false
      → prepare pq limit name statement c ≡ (c, throw invalid_argument)
  unfolding prepare check_prepared_name expect
  prepare-refused name statement c e = rw (e) refl

  serve-AreIdentifiers :
      (q : Request) (c : Connection L H)
      → AreIdentifiers c.prepared_statements
      → AreIdentifiers (serve q c).prepared_statements
  unfolding serve
  serve-AreIdentifiers (prepare_as name statement) c h = elim (Bool-cases (is_identifier name)) [
    | inl e ↦
        changed-AreIdentifiers (insert name) c (prepare pq limit name statement c)
          (prepare-Changes pq limit name statement c) h
          (insert-AreIdentifiers name c.prepared_statements e h)
    | inr e ↦
        subst (λ p. AreIdentifiers p.0.prepared_statements)
          (sym (prepare-refused name statement c e)) h
  ]
  serve-AreIdentifiers (deallocate_of name) c h =
      changed-AreIdentifiers (erase name) c (deallocate pq limit name c)
        (deallocate-Changes pq limit name c) h (erase-AreIdentifiers name c.prepared_statements h)
  serve-AreIdentifiers (execute_of statement) c h =
      subst AreIdentifiers
        (sym (execute-Has pq limit statement c.in_use c.prepared_statements c (refl, refl)).0) h

  serve_all-AreIdentifiers :
      (qs : List Request) (c : Connection L H)
      → AreIdentifiers c.prepared_statements
      → AreIdentifiers (serve_all qs c).prepared_statements
  unfolding serve_all
  serve_all-AreIdentifiers [] c h = h
  serve_all-AreIdentifiers (q ∷ qs) c h =
      serve_all-AreIdentifiers qs (serve q c) (serve-AreIdentifiers q c h)

  -- After any sequence of `prepare`, `deallocate` and `execute`, successful or not, on a
  -- connection without prepared statements, a statement that is no identifier is sent as a query,
  -- and never as the name of a prepared statement.
  pub send_params-query :
      (qs : List Request) (c : Connection L H) (statement : Bytes)
      → c.prepared_statements ≡ []
      → is_identifier statement ≡ false
      → send_params pq limit statement (serve_all qs c) ≡ (
          let d = serve_all qs c in
          let (l, sent) = pq.send_query_params d.pgconn statement in
          expect connection_error sent (record d { pgconn = l }))
  unfolding send_params libpq
  send_params-query qs c statement e i =
      let n =
        contains-AreIdentifiers statement (serve_all qs c).prepared_statements i
          (serve_all-AreIdentifiers qs c (subst AreIdentifiers (sym e) tt)) in
      rw (n) refl
