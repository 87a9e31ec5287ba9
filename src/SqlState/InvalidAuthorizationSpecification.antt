-- ===== src/SqlState/InvalidAuthorizationSpecification.antt =====
-- SQLSTATE class 28: `invalid_authorization_specification` and the types derived from it in exception.hpp, and the case of
-- `throw_sqlstate` in src/lib/pq/exception.cpp that throws them.
use taopq.Base.{List, [], ◌∷◌, Bytes, codes, bytes_eq, ◌≡◌, refl, ◌⊎◌}
use taopq.SqlState.Table.{pick, pick-code, agree, first, second}

-- `generic` is an object of the base type itself.
pub data InvalidAuthorizationSpecification : Type 0 where
  generic invalid_password : InvalidAuthorizationSpecification

-- The code that stands beside each type.
unfoldable pub code : InvalidAuthorizationSpecification → Bytes
code generic = codes "28xxx"
code invalid_password = codes "28P01"

-- The tests of the case, in their order.
abbrev rows : List (Bytes × InvalidAuthorizationSpecification)
rows = (codes "28P01", invalid_password) ∷ []

unfoldable pub throw_invalid_authorization_specification : Bytes → InvalidAuthorizationSpecification
unfolding pick bytes_eq
throw_invalid_authorization_specification s = pick rows generic s

-- An exception that is not of the base type is thrown for its own code only.
pub throw-code :
    (s : Bytes)
    → (throw_invalid_authorization_specification s ≡ generic)
      ⊎ (code (throw_invalid_authorization_specification s) ≡ s)
unfolding throw_invalid_authorization_specification code agree
throw-code s = pick-code code rows generic s refl

pub throw_code_lem :
    (e : InvalidAuthorizationSpecification) → throw_invalid_authorization_specification (code e) ≡ e
unfolding throw_invalid_authorization_specification code
throw_code_lem generic = refl
throw_code_lem _ = refl

pub code-class :
    (e : InvalidAuthorizationSpecification) → (first (code e) ≡ b'2') × (second (code e) ≡ b'8')
unfolding code first second
code-class generic = (refl, refl)
code-class _ = (refl, refl)
