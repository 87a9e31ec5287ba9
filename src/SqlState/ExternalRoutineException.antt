-- ===== src/SqlState/ExternalRoutineException.antt =====
-- SQLSTATE class 38: `external_routine_exception` and the types derived from it in exception.hpp, and the case of
-- `throw_sqlstate` in src/lib/pq/exception.cpp that throws them.
use taopq.Base.{List, [], ◌∷◌, Bytes, codes, bytes_eq, ◌≡◌, refl, ◌⊎◌}
use taopq.SqlState.Table.{pick, pick-code, agree, first, second}

-- `generic` is an object of the base type itself.
pub data ExternalRoutineException : Type 0 where
  generic containing_sql_not_permitted modifying_sql_data_not_permitted_external_routine_exception
        prohibited_sql_statement_attempted_external_routine_exception
        reading_sql_data_not_permitted_external_routine_exception :
      ExternalRoutineException

-- The code that stands beside each type.
unfoldable pub code : ExternalRoutineException → Bytes
code generic = codes "38xxx"
code containing_sql_not_permitted = codes "38001"
code modifying_sql_data_not_permitted_external_routine_exception = codes "38002"
code prohibited_sql_statement_attempted_external_routine_exception = codes "38003"
code reading_sql_data_not_permitted_external_routine_exception = codes "38004"

-- The tests of the case, in their order.
abbrev rows : List (Bytes × ExternalRoutineException)
rows =
    (codes "38001", containing_sql_not_permitted)
    ∷ (codes "38002", modifying_sql_data_not_permitted_external_routine_exception)
    ∷ (codes "38003", prohibited_sql_statement_attempted_external_routine_exception)
    ∷ (codes "38004", reading_sql_data_not_permitted_external_routine_exception)
    ∷ []

unfoldable pub throw_external_routine_exception : Bytes → ExternalRoutineException
unfolding pick bytes_eq
throw_external_routine_exception s = pick rows generic s

-- An exception that is not of the base type is thrown for its own code only.
pub throw-code :
    (s : Bytes)
    → (throw_external_routine_exception s ≡ generic)
      ⊎ (code (throw_external_routine_exception s) ≡ s)
unfolding throw_external_routine_exception code agree
throw-code s = pick-code code rows generic s refl

pub throw_code_lem : (e : ExternalRoutineException) → throw_external_routine_exception (code e) ≡ e
unfolding throw_external_routine_exception code
throw_code_lem generic = refl
throw_code_lem _ = refl

pub code-class : (e : ExternalRoutineException) → (first (code e) ≡ b'3') × (second (code e) ≡ b'8')
unfolding code first second
code-class generic = (refl, refl)
code-class _ = (refl, refl)
