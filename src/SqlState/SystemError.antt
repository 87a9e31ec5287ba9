-- ===== src/SqlState/SystemError.antt =====
-- SQLSTATE class 58: `system_error` and the types derived from it in exception.hpp, and the case of
-- `throw_sqlstate` in src/lib/pq/exception.cpp that throws them.
use taopq.Base.{List, [], ◌∷◌, Bytes, codes, bytes_eq, ◌≡◌, refl, ◌⊎◌}
use taopq.SqlState.Table.{pick, pick-code, agree, first, second}

-- `generic` is an object of the base type itself.
pub data SystemError : Type 0 where
  generic io_error undefined_file duplicate_file : SystemError

-- The code that stands beside each type.
unfoldable pub code : SystemError → Bytes
code generic = codes "58xxx"
code io_error = codes "58030"
code undefined_file = codes "58P01"
code duplicate_file = codes "58P02"

-- The tests of the case, in their order.
abbrev rows : List (Bytes × SystemError)
rows =
    (codes "58030", io_error)
    ∷ (codes "58P01", undefined_file)
    ∷ (codes "58P02", duplicate_file)
    ∷ []

unfoldable pub throw_system_error : Bytes → SystemError
unfolding pick bytes_eq
throw_system_error s = pick rows generic s

-- An exception that is not of the base type is thrown for its own code only.
pub throw-code : (s : Bytes) → (throw_system_error s ≡ generic) ⊎ (code (throw_system_error s) ≡ s)
unfolding throw_system_error code agree
throw-code s = pick-code code rows generic s refl

pub throw_code_lem : (e : SystemError) → throw_system_error (code e) ≡ e
unfolding throw_system_error code
throw_code_lem generic = refl
throw_code_lem _ = refl

pub code-class : (e : SystemError) → (first (code e) ≡ b'5') × (second (code e) ≡ b'8')
unfolding code first second
code-class generic = (refl, refl)
code-class _ = (refl, refl)
