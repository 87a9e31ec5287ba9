-- ===== src/SqlState/ProgramLimitExceeded.antt =====
-- SQLSTATE class 54: `program_limit_exceeded` and the types derived from it in exception.hpp, and the case of
-- `throw_sqlstate` in src/lib/pq/exception.cpp that throws them.
use taopq.Base.{List, [], ◌∷◌, Bytes, codes, bytes_eq, ◌≡◌, refl, ◌⊎◌}
use taopq.SqlState.Table.{pick, pick-code, agree, first, second}

-- `generic` is an object of the base type itself.
pub data ProgramLimitExceeded : Type 0 where
  generic statement_too_complex too_many_columns too_many_arguments : ProgramLimitExceeded

-- The code that stands beside each type.
unfoldable pub code : ProgramLimitExceeded → Bytes
code generic = codes "54xxx"
code statement_too_complex = codes "54001"
code too_many_columns = codes "54011"
code too_many_arguments = codes "54023"

-- The tests of the case, in their order.
abbrev rows : List (Bytes × ProgramLimitExceeded)
rows =
    (codes "54001", statement_too_complex)
    ∷ (codes "54011", too_many_columns)
    ∷ (codes "54023", too_many_arguments)
    ∷ []

unfoldable pub throw_program_limit_exceeded : Bytes → ProgramLimitExceeded
unfolding pick bytes_eq
throw_program_limit_exceeded s = pick rows generic s

-- An exception that is not of the base type is thrown for its own code only.
pub throw-code :
    (s : Bytes)
    → (throw_program_limit_exceeded s ≡ generic) ⊎ (code (throw_program_limit_exceeded s) ≡ s)
unfolding throw_program_limit_exceeded code agree
throw-code s = pick-code code rows generic s refl

pub throw_code_lem : (e : ProgramLimitExceeded) → throw_program_limit_exceeded (code e) ≡ e
unfolding throw_program_limit_exceeded code
throw_code_lem generic = refl
throw_code_lem _ = refl

pub code-class : (e : ProgramLimitExceeded) → (first (code e) ≡ b'5') × (second (code e) ≡ b'4')
unfolding code first second
code-class generic = (refl, refl)
code-class _ = (refl, refl)
