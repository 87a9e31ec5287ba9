-- ===== src/SqlState/IntegrityConstraintViolation.antt =====
-- SQLSTATE class 23: `integrity_constraint_violation` and the types derived from it in exception.hpp, and the case of
-- `throw_sqlstate` in src/lib/pq/exception.cpp that throws them.
use taopq.Base.{List, [], ◌∷◌, Bytes, codes, bytes_eq, ◌≡◌, refl, ◌⊎◌}
use taopq.SqlState.Table.{pick, pick-code, agree, first, second}

-- `generic` is an object of the base type itself.
pub data IntegrityConstraintViolation : Type 0 where
  generic restrict_violation not_null_violation foreign_key_violation unique_violation
        check_violation exclusion_violation :
      IntegrityConstraintViolation

-- The code that stands beside each type.
unfoldable pub code : IntegrityConstraintViolation → Bytes
code generic = codes "23xxx"
code restrict_violation = codes "23001"
code not_null_violation = codes "23502"
code foreign_key_violation = codes "23503"
code unique_violation = codes "23505"
code check_violation = codes "23514"
code exclusion_violation = codes "23P01"

-- The tests of the case, in their order.
abbrev rows : List (Bytes × IntegrityConstraintViolation)
rows =
    (codes "23001", restrict_violation)
    ∷ (codes "23502", not_null_violation)
    ∷ (codes "23503", foreign_key_violation)
    ∷ (codes "23505", unique_violation)
    ∷ (codes "23514", check_violation)
    ∷ (codes "23P01", exclusion_violation)
    ∷ []

unfoldable pub throw_integrity_constraint_violation : Bytes → IntegrityConstraintViolation
unfolding pick bytes_eq
throw_integrity_constraint_violation s = pick rows generic s

-- An exception that is not of the base type is thrown for its own code only.
pub throw-code :
    (s : Bytes)
    → (throw_integrity_constraint_violation s ≡ generic)
      ⊎ (code (throw_integrity_constraint_violation s) ≡ s)
unfolding throw_integrity_constraint_violation code agree
throw-code s = pick-code code rows generic s refl

pub throw_code_lem :
    (e : IntegrityConstraintViolation) → throw_integrity_constraint_violation (code e) ≡ e
unfolding throw_integrity_constraint_violation code
throw_code_lem generic = refl
throw_code_lem _ = refl

pub code-class :
    (e : IntegrityConstraintViolation) → (first (code e) ≡ b'2') × (second (code e) ≡ b'3')
unfolding code first second
code-class generic = (refl, refl)
code-class _ = (refl, refl)
