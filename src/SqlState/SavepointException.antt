-- ===== src/SqlState/SavepointException.antt =====
-- SQLSTATE class 3B: `savepoint_exception` and the types derived from it in exception.hpp, and the case of
-- `throw_sqlstate` in src/lib/pq/exception.cpp that throws them.
use taopq.Base.{List, [], ◌∷◌, Bytes, codes, bytes_eq, ◌≡◌, refl, ◌⊎◌}
use taopq.SqlState.Table.{pick, pick-code, agree, first, second}

-- `generic` is an object of the base type itself.
pub data SavepointException : Type 0 where
  generic invalid_savepoint_specification : SavepointException

-- The code that stands beside each type.
unfoldable pub code : SavepointException → Bytes
code generic = codes "3Bxxx"
code invalid_savepoint_specification = codes "3B001"

-- The tests of the case, in their order.
abbrev rows : List (Bytes × SavepointException)
rows = (codes "3B001", invalid_savepoint_specification) ∷ []

unfoldable pub throw_savepoint_exception : Bytes → SavepointException
unfolding pick bytes_eq
throw_savepoint_exception s = pick rows generic s

-- An exception that is not of the base type is thrown for its own code only.
pub throw-code :
    (s : Bytes) → (throw_savepoint_exception s ≡ generic) ⊎ (code (throw_savepoint_exception s) ≡ s)
unfolding throw_savepoint_exception code agree
throw-code s = pick-code code rows generic s refl

pub throw_code_lem : (e : SavepointException) → throw_savepoint_exception (code e) ≡ e
unfolding throw_savepoint_exception code
throw_code_lem generic = refl
throw_code_lem _ = refl

pub code-class : (e : SavepointException) → (first (code e) ≡ b'3') × (second (code e) ≡ b'B')
unfolding code first second
code-class generic = (refl, refl)
code-class _ = (refl, refl)
