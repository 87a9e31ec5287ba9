-- ===== src/SqlState/SqlRoutineException.antt =====
-- SQLSTATE class 2F: `sql_routine_exception` and the types derived from it in exception.hpp, and the case of
-- `throw_sqlstate` in src/lib/pq/exception.cpp that throws them.
use taopq.Base.{List, [], ◌∷◌, Bytes, codes, bytes_eq, ◌≡◌, refl, ◌⊎◌}
use taopq.SqlState.Table.{pick, pick-code, agree, first, second}

-- `generic` is an object of the base type itself.
pub data SqlRoutineException : Type 0 where
  generic modifying_sql_data_not_permitted_sql_routine_exception
        prohibited_sql_statement_attempted_sql_routine_exception
        reading_sql_data_not_permitted_sql_routine_exception function_executed_no_return_statement :
      SqlRoutineException

-- The code that stands beside each type.
unfoldable pub code : SqlRoutineException → Bytes
code generic = codes "2Fxxx"
code modifying_sql_data_not_permitted_sql_routine_exception = codes "2F002"
code prohibited_sql_statement_attempted_sql_routine_exception = codes "2F003"
code reading_sql_data_not_permitted_sql_routine_exception = codes "2F004"
code function_executed_no_return_statement = codes "2F005"

-- The tests of the case, in their order.
abbrev rows : List (Bytes × SqlRoutineException)
rows =
    (codes "2F002", modifying_sql_data_not_permitted_sql_routine_exception)
    ∷ (codes "2F003", prohibited_sql_statement_attempted_sql_routine_exception)
    ∷ (codes "2F004", reading_sql_data_not_permitted_sql_routine_exception)
    ∷ (codes "2F005", function_executed_no_return_statement)
    ∷ []

unfoldable pub throw_sql_routine_exception : Bytes → SqlRoutineException
unfolding pick bytes_eq
throw_sql_routine_exception s = pick rows generic s

-- An exception that is not of the base type is thrown for its own code only.
pub throw-code :
    (s : Bytes)
    → (throw_sql_routine_exception s ≡ generic) ⊎ (code (throw_sql_routine_exception s) ≡ s)
unfolding throw_sql_routine_exception code agree
throw-code s = pick-code code rows generic s refl

pub throw_code_lem : (e : SqlRoutineException) → throw_sql_routine_exception (code e) ≡ e
unfolding throw_sql_routine_exception code
throw_code_lem generic = refl
throw_code_lem _ = refl

pub code-class : (e : SqlRoutineException) → (first (code e) ≡ b'2') × (second (code e) ≡ b'F')
unfolding code first second
code-class generic = (refl, refl)
code-class _ = (refl, refl)
