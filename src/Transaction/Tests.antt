-- ===== src/Transaction/Tests.antt =====
-- Runs of the transactions of a connection, and the theorems at them.
use taopq.Base.{ℕ, ◌≡◌, refl, true, false, List, [], ◌∷◌, throw, logic_error, overrun, member}
use taopq.Transaction.{
  start_transaction, savepoint, rollback_to, transaction, subtransaction, construct, conclude,
  v_rollback, v_reset, commit, rollback, is_current, same, v_is_direct, behind, unlink, push, send,
  update,
}
use taopq.Transaction.Stack.{Represents}
use taopq.Transaction.Calls.{
  Call, transactions, subtransactions, commits, rollbacks, step, on_stack, in_order, run, run_stack,
  all_in_order, fresh,
}
use taopq.Transaction.Order.{step-Represents, run-Represents}
use taopq.Transaction.Misuse.{commit_below, commit_over}

-- A transaction with two levels of subtransactions, the inner one of which is over.
abbrev nested : List Call
nested = transactions true ∷ subtransactions 0 true ∷ subtransactions 1 true ∷ rollbacks 2 true ∷ []

nested_sent :
    (run fresh nested).sent ≡ rollback_to 2 ∷ savepoint 2 ∷ savepoint 1 ∷ start_transaction ∷ []
unfolding run step transaction subtransaction rollback construct conclude v_rollback v_reset
    is_current same v_is_direct behind unlink push send update
nested_sent = refl

nested_in_order : all_in_order fresh [] nested ≡ true
unfolding all_in_order in_order on_stack member step transaction subtransaction rollback construct
    conclude v_rollback v_reset is_current same v_is_direct behind unlink push send update
nested_in_order = refl

run-Represents_example : Represents (run fresh nested) (run_stack fresh [] nested)
run-Represents_example = run-Represents nested nested_in_order

nested_stack : run_stack fresh [] nested ≡ 1 ∷ 0 ∷ []
unfolding run_stack on_stack member step transaction subtransaction rollback construct conclude
    v_rollback v_reset is_current same v_is_direct behind unlink push send update
nested_stack = refl

nested-Represents : Represents (run fresh nested) (1 ∷ 0 ∷ [])
nested-Represents = rw⁻¹ (nested_stack) (run-Represents nested nested_in_order)

step-Represents_example :
    Represents
      (step (run fresh nested) (commits 1 false))
      (on_stack (run fresh nested).next (1 ∷ 0 ∷ []) (commits 1 false))
step-Represents_example =
    step-Represents (run fresh nested) (1 ∷ 0 ∷ []) (commits 1 false) nested-Represents
      (unfold in_order in refl)

commit_below_example :
    (commit (run fresh nested) 0 true ≡ (unlink (run fresh nested) 0, throw logic_error))
    × (rollback (run fresh nested) 0 true ≡ (unlink (run fresh nested) 0, throw logic_error))
    × ((unlink (run fresh nested) 0).sent ≡ (run fresh nested).sent)
    × ((st2 : List ℕ) → ¬ Represents (unlink (run fresh nested) 0) st2)
commit_below_example =
    commit_below (run fresh nested) 1 0 (0 ∷ []) true nested-Represents refl (unfold member in refl)

commit_over_example :
    (commit (run fresh nested) 2 true ≡ (run fresh nested, throw overrun))
    × (rollback (run fresh nested) 2 true ≡ (run fresh nested, throw overrun))
commit_over_example =
    commit_over (run fresh nested) 2 (1 ∷ 0 ∷ []) true nested-Represents (unfold member in refl)
