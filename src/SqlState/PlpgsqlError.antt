-- ===== src/SqlState/PlpgsqlError.antt =====
-- SQLSTATE class P0: `plpgsql_error` and the types derived from it in exception.hpp, and the case of
-- `throw_sqlstate` in src/lib/pq/exception.cpp that throws them.
use taopq.Base.{List, [], ◌∷◌, Bytes, codes, bytes_eq, ◌≡◌, refl, ◌⊎◌}
use taopq.SqlState.Table.{pick, pick-code, agree, first, second}

-- `generic` is an object of the base type itself.
pub data PlpgsqlError : Type 0 where
  generic raise_exception no_data_found too_many_rows assert_failure : PlpgsqlError

-- The code that stands beside each type.
unfoldable pub code : PlpgsqlError → Bytes
code generic = codes "P0xxx"
code raise_exception = codes "P0001"
code no_data_found = codes "P0002"
code too_many_rows = codes "P0003"
code assert_failure = codes "P0004"

-- The tests of the case, in their order.
abbrev rows : List (Bytes × PlpgsqlError)
rows =
    (codes "P0001", raise_exception)
    ∷ (codes "P0002", no_data_found)
    ∷ (codes "P0003", too_many_rows)
    ∷ (codes "P0004", assert_failure)
    ∷ []

unfoldable pub throw_plpgsql_error : Bytes → PlpgsqlError
unfolding pick bytes_eq
throw_plpgsql_error s = pick rows generic s

-- An exception that is not of the base type is thrown for its own code only.
pub throw-code :
    (s : Bytes) → (throw_plpgsql_error s ≡ generic) ⊎ (code (throw_plpgsql_error s) ≡ s)
unfolding throw_plpgsql_error code agree
throw-code s = pick-code code rows generic s refl

pub throw_code_lem : (e : PlpgsqlError) → throw_plpgsql_error (code e) ≡ e
unfolding throw_plpgsql_error code
throw_code_lem generic = refl
throw_code_lem _ = refl

pub code-class : (e : PlpgsqlError) → (first (code e) ≡ b'P') × (second (code e) ≡ b'0')
unfolding code first second
code-class generic = (refl, refl)
code-class _ = (refl, refl)
