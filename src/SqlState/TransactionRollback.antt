-- ===== src/SqlState/TransactionRollback.antt =====
-- SQLSTATE class 40: `transaction_rollback` and the types derived from it in exception.hpp, and the case of
-- `throw_sqlstate` in src/lib/pq/exception.cpp that throws them.
use taopq.Base.{List, [], ◌∷◌, Bytes, codes, bytes_eq, ◌≡◌, refl, ◌⊎◌}
use taopq.SqlState.Table.{pick, pick-code, agree, first, second}

-- `generic` is an object of the base type itself.
pub data TransactionRollback : Type 0 where
  generic serialization_failure transaction_integrity_constraint_violation
        statement_completion_unknown deadlock_detected :
      TransactionRollback

-- The code that stands beside each type.
unfoldable pub code : TransactionRollback → Bytes
code generic = codes "40xxx"
code serialization_failure = codes "40001"
code transaction_integrity_constraint_violation = codes "40002"
code statement_completion_unknown = codes "40003"
code deadlock_detected = codes "40P01"

-- The tests of the case, in their order.
abbrev rows : List (Bytes × TransactionRollback)
rows =
    (codes "40001", serialization_failure)
    ∷ (codes "40002", transaction_integrity_constraint_violation)
    ∷ (codes "40003", statement_completion_unknown)
    ∷ (codes "40P01", deadlock_detected)
    ∷ []

unfoldable pub throw_transaction_rollback : Bytes → TransactionRollback
unfolding pick bytes_eq
throw_transaction_rollback s = pick rows generic s

-- An exception that is not of the base type is thrown for its own code only.
pub throw-code :
    (s : Bytes)
    → (throw_transaction_rollback s ≡ generic) ⊎ (code (throw_transaction_rollback s) ≡ s)
unfolding throw_transaction_rollback code agree
throw-code s = pick-code code rows generic s refl

pub throw_code_lem : (e : TransactionRollback) → throw_transaction_rollback (code e) ≡ e
unfolding throw_transaction_rollback code
throw_code_lem generic = refl
throw_code_lem _ = refl

pub code-class : (e : TransactionRollback) → (first (code e) ≡ b'4') × (second (code e) ≡ b'0')
unfolding code first second
code-class generic = (refl, refl)
code-class _ = (refl, refl)
