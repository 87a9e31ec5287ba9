-- ===== src/SqlState/InvalidGrantor.antt =====
-- SQLSTATE class 0L: `invalid_grantor` and the types derived from it in exception.hpp, and the case of
-- `throw_sqlstate` in src/lib/pq/exception.cpp that throws them.
use taopq.Base.{List, [], ◌∷◌, Bytes, codes, bytes_eq, ◌≡◌, refl, ◌⊎◌}
use taopq.SqlState.Table.{pick, pick-code, agree, first, second}

-- `generic` is an object of the base type itself.
pub data InvalidGrantor : Type 0 where
  generic invalid_grant_operation : InvalidGrantor

-- The code that stands beside each type.
unfoldable pub code : InvalidGrantor → Bytes
code generic = codes "0Lxxx"
code invalid_grant_operation = codes "0LP01"

-- The tests of the case, in their order.
abbrev rows : List (Bytes × InvalidGrantor)
rows = (codes "0LP01", invalid_grant_operation) ∷ []

unfoldable pub throw_invalid_grantor : Bytes → InvalidGrantor
unfolding pick bytes_eq
throw_invalid_grantor s = pick rows generic s

-- An exception that is not of the base type is thrown for its own code only.
pub throw-code :
    (s : Bytes) → (throw_invalid_grantor s ≡ generic) ⊎ (code (throw_invalid_grantor s) ≡ s)
unfolding throw_invalid_grantor code agree
throw-code s = pick-code code rows generic s refl

pub throw_code_lem : (e : InvalidGrantor) → throw_invalid_grantor (code e) ≡ e
unfolding throw_invalid_grantor code
throw_code_lem generic = refl
throw_code_lem _ = refl

pub code-class : (e : InvalidGrantor) → (first (code e) ≡ b'0') × (second (code e) ≡ b'L')
unfolding code first second
code-class generic = (refl, refl)
code-class _ = (refl, refl)
