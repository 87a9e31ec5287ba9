-- ===== src/SqlState/LocatorException.antt =====
-- SQLSTATE class 0F: `locator_exception` and the types derived from it in exception.hpp, and the case of
-- `throw_sqlstate` in src/lib/pq/exception.cpp that throws them.
use taopq.Base.{List, [], ◌∷◌, Bytes, codes, bytes_eq, ◌≡◌, refl, ◌⊎◌}
use taopq.SqlState.Table.{pick, pick-code, agree, first, second}

-- `generic` is an object of the base type itself.
pub data LocatorException : Type 0 where
  generic invalid_locator_specification : LocatorException

-- The code that stands beside each type.
unfoldable pub code : LocatorException → Bytes
code generic = codes "0Fxxx"
code invalid_locator_specification = codes "0F001"

-- The tests of the case, in their order.
abbrev rows : List (Bytes × LocatorException)
rows = (codes "0F001", invalid_locator_specification) ∷ []

unfoldable pub throw_locator_exception : Bytes → LocatorException
unfolding pick bytes_eq
throw_locator_exception s = pick rows generic s

-- An exception that is not of the base type is thrown for its own code only.
pub throw-code :
    (s : Bytes) → (throw_locator_exception s ≡ generic) ⊎ (code (throw_locator_exception s) ≡ s)
unfolding throw_locator_exception code agree
throw-code s = pick-code code rows generic s refl

pub throw_code_lem : (e : LocatorException) → throw_locator_exception (code e) ≡ e
unfolding throw_locator_exception code
throw_code_lem generic = refl
throw_code_lem _ = refl

pub code-class : (e : LocatorException) → (first (code e) ≡ b'0') × (second (code e) ≡ b'F')
unfolding code first second
code-class generic = (refl, refl)
code-class _ = (refl, refl)
