-- ===== src/Transaction/Order.antt =====
-- Calls in order act on the transactions of a connection as on a stack.
use taopq.Base.{
  ℕ, ◌≡◌, refl, Bool, true, false, ◌&&◌, List, [], ◌∷◌, Option, none, some, if◌then◌else◌, arith,
  Result, ok, throw, logic_error, member, ap, ◌∙◌,
}
use taopq.Transaction.{
  autocommit, top_level, top_level_sub, nested_sub, guard, World, v_is_direct, behind, push,
  construct, direct, transaction, subtransaction, make_guard, commit, rollback, savepoint,
  start_transaction,
}
use taopq.Transaction.Stack.{Represents, push-Represents}
use taopq.Transaction.Calls.{
  Call, directs, transactions, subtransactions, guards, commits, rollbacks, destroys, step, is_top,
  on_stack, in_order, run, run_stack, all_in_order, fresh,
}
use taopq.Transaction.Conclude.{
  is_current_lem, is_top_lem, conclude-Represents, destroyed-Represents, destroy_closed,
  construct-Represents,
}

direct_at :
    (w : World) (o : Option ℕ)
    → w.current ≡ o
    → (direct w).0
      ≡ (elim o as (λ _. World × Result ℕ) [
        | none ↦ (push w autocommit none, ok w.next)
        | some c ↦ (w, throw logic_error)
      ]).0
unfolding direct
direct_at w o e =
    ap
      (λ o.
        (elim o as (λ _. World × Result ℕ) [
          | none ↦ (push w autocommit none, ok w.next)
          | some c ↦ (w, throw logic_error)
        ]).0)
      e

directs-Represents :
    (w : World) (st : List ℕ)
    → Represents w st
    → Represents (direct w).0 (on_stack w.next st directs)
unfolding on_stack behind
directs-Represents w [] r =
    rw (direct_at w none r.current) (push-Represents w [] autocommit none refl r)
directs-Represents w (s ∷ st) r = rw (direct_at w (some s) r.current) r

transaction_at :
    (w : World) (executes : Bool) (o : Option ℕ)
    → w.current ≡ o
    → (transaction w executes).0
      ≡ (elim o as (λ _. World × Result ℕ) [
        | none ↦ construct w top_level none start_transaction executes
        | some c ↦ (w, throw logic_error)
      ]).0
unfolding transaction
transaction_at w executes o e =
    ap
      (λ o.
        (elim o as (λ _. World × Result ℕ) [
          | none ↦ construct w top_level none start_transaction executes
          | some c ↦ (w, throw logic_error)
        ]).0)
      e

transactions-Represents :
    (w : World) (st : List ℕ) (executes : Bool)
    → Represents w st
    → Represents (transaction w executes).0 (on_stack w.next st (transactions executes))
unfolding on_stack behind
transactions-Represents w [] executes r =
    rw (transaction_at w executes none r.current)
      (construct-Represents w [] top_level none start_transaction executes refl r)
transactions-Represents w (s ∷ st) executes r = rw (transaction_at w executes (some s) r.current) r

subtransactions-Represents :
    (w : World) (st : List ℕ) (t : ℕ) (executes : Bool)
    → Represents w st
    → Represents (subtransaction w t executes).0 (on_stack w.next st (subtransactions t executes))
unfolding subtransaction on_stack behind
subtransactions-Represents w st t executes r =
    rw (is_current_lem w st t r)
      (elim (is_top t st)
        as (λ b.
          Represents
            (if b
              then (if v_is_direct (w.transactions t).kind
                  then construct w top_level_sub w.current start_transaction executes
                  else construct w nested_sub w.current (savepoint w.next) executes)
              else (w, throw logic_error)).0
            (if b && executes then w.next ∷ st else st)) [
              | true ↦
                  elim (v_is_direct (w.transactions t).kind)
                    as (λ d.
                      Represents
                        (if d
                          then construct w top_level_sub w.current start_transaction executes
                          else construct w nested_sub w.current (savepoint w.next) executes).0
                        (if executes then w.next ∷ st else st)) [
                          | true ↦
                              construct-Represents w st top_level_sub w.current start_transaction
                                executes r.current r
                          | false ↦
                              construct-Represents w st nested_sub w.current (savepoint w.next)
                                executes r.current r
                        ]
              | false ↦ r
            ])

guards-Represents :
    (w : World) (st : List ℕ) (t : ℕ)
    → Represents w st
    → member t st ≡ true
    → Represents (make_guard w t).0 (w.next ∷ st)
unfolding make_guard behind
guards-Represents w [] t r m = absurd (unfold member in ground (arith, m))
guards-Represents w (s ∷ st) t r m =
    simp (r.members t, m, r.current) (push-Represents w (s ∷ st) guard (some s) refl r)

-- The calls act on the world as the calls in order act on the stack.
pub step-Represents :
    (w : World) (st : List ℕ) (c : Call)
    → Represents w st
    → in_order st c ≡ true
    → Represents (step w c) (on_stack w.next st c)
unfolding step in_order
step-Represents w st directs r o = directs-Represents w st r
step-Represents w st (transactions executes) r o = transactions-Represents w st executes r
step-Represents w st (subtransactions t executes) r o = subtransactions-Represents w st t executes r
step-Represents w st (guards t) r o = unfold on_stack in guards-Represents w st t r o
step-Represents w [] (commits t executes) r o = cc
step-Represents w (s ∷ st) (commits t executes) r o =
    unfold on_stack commit in rw (is_top_lem t s st o) (conclude-Represents w s st _ executes r)
step-Represents w [] (rollbacks t executes) r o = cc
step-Represents w (s ∷ st) (rollbacks t executes) r o =
    unfold on_stack rollback in rw (is_top_lem t s st o) (conclude-Represents w s st _ executes r)
step-Represents w [] (destroys t attempt executes) r o =
    unfold on_stack in
    rw (destroy_closed w t attempt executes (r.members t ∙ (unfold member in refl))) r
step-Represents w (s ∷ st) (destroys t attempt executes) r o =
    unfold on_stack in destroyed-Represents w s t st attempt executes r o

both_true : (a b : Bool) → (if a then b else false) ≡ true → (a ≡ true) × (b ≡ true)
both_true true b e = (refl, e)
both_true false b e = cc

run-Represents_at :
    (w : World) (st : List ℕ) (cs : List Call)
    → Represents w st
    → all_in_order w st cs ≡ true
    → Represents (run w cs) (run_stack w st cs)
unfolding run run_stack all_in_order
run-Represents_at w st [] r o = r
run-Represents_at w st (c ∷ cs) r o =
    let (e, f) = both_true (in_order st c) (all_in_order (step w c) (on_stack w.next st c) cs) o in
    run-Represents_at (step w c) _ cs (step-Represents w st c r e) f

fresh-Represents : Represents fresh []
fresh-Represents = record {
  current = refl;
  linked = tt;
  made = tt;
  members = λ t. unfold member in refl;
}

-- After calls in order on a new connection, the open transactions are the stack that the calls
-- make: its top is the current transaction, each gives way to the one below it, and no other object
-- has the connection.
pub run-Represents :
    (cs : List Call)
    → all_in_order fresh [] cs ≡ true
    → Represents (run fresh cs) (run_stack fresh [] cs)
run-Represents cs o = run-Represents_at fresh [] cs fresh-Represents o
