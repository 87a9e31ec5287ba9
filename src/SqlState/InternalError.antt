-- ===== src/SqlState/InternalError.antt =====
-- SQLSTATE class XX: `internal_error` and the types derived from it in exception.hpp, and the case of
-- `throw_sqlstate` in src/lib/pq/exception.cpp that throws them.
use taopq.Base.{List, [], ◌∷◌, Bytes, codes, bytes_eq, ◌≡◌, refl, ◌⊎◌}
use taopq.SqlState.Table.{pick, pick-code, agree, first, second}

-- `generic` is an object of the base type itself.
pub data InternalError : Type 0 where
  generic data_corrupted index_corrupted : InternalError

-- The code that stands beside each type.
unfoldable pub code : InternalError → Bytes
code generic = codes "XXxxx"
code data_corrupted = codes "XX001"
code index_corrupted = codes "XX002"

-- The tests of the case, in their order.
abbrev rows : List (Bytes × InternalError)
rows = (codes "XX001", data_corrupted) ∷ (codes "XX002", index_corrupted) ∷ []

unfoldable pub throw_internal_error : Bytes → InternalError
unfolding pick bytes_eq
throw_internal_error s = pick rows generic s

-- An exception that is not of the base type is thrown for its own code only.
pub throw-code :
    (s : Bytes) → (throw_internal_error s ≡ generic) ⊎ (code (throw_internal_error s) ≡ s)
unfolding throw_internal_error code agree
throw-code s = pick-code code rows generic s refl

pub throw_code_lem : (e : InternalError) → throw_internal_error (code e) ≡ e
unfolding throw_internal_error code
throw_code_lem generic = refl
throw_code_lem _ = refl

pub code-class : (e : InternalError) → (first (code e) ≡ b'X') × (second (code e) ≡ b'X')
unfolding code first second
code-class generic = (refl, refl)
code-class _ = (refl, refl)
