-- ===== src/SqlState/ConfigFileError.antt =====
-- SQLSTATE class F0: `config_file_error` and the types derived from it in exception.hpp, and the case of
-- `throw_sqlstate` in src/lib/pq/exception.cpp that throws them.
use taopq.Base.{List, [], ◌∷◌, Bytes, codes, bytes_eq, ◌≡◌, refl, ◌⊎◌}
use taopq.SqlState.Table.{pick, pick-code, agree, first, second}

-- `generic` is an object of the base type itself.
pub data ConfigFileError : Type 0 where
  generic lock_file_exists : ConfigFileError

-- The code that stands beside each type.
unfoldable pub code : ConfigFileError → Bytes
code generic = codes "F0xxx"
code lock_file_exists = codes "F0001"

-- The tests of the case, in their order.
abbrev rows : List (Bytes × ConfigFileError)
rows = (codes "F0001", lock_file_exists) ∷ []

unfoldable pub throw_config_file_error : Bytes → ConfigFileError
unfolding pick bytes_eq
throw_config_file_error s = pick rows generic s

-- An exception that is not of the base type is thrown for its own code only.
pub throw-code :
    (s : Bytes) → (throw_config_file_error s ≡ generic) ⊎ (code (throw_config_file_error s) ≡ s)
unfolding throw_config_file_error code agree
throw-code s = pick-code code rows generic s refl

pub throw_code_lem : (e : ConfigFileError) → throw_config_file_error (code e) ≡ e
unfolding throw_config_file_error code
throw_code_lem generic = refl
throw_code_lem _ = refl

pub code-class : (e : ConfigFileError) → (first (code e) ≡ b'F') × (second (code e) ≡ b'0')
unfolding code first second
code-class generic = (refl, refl)
code-class _ = (refl, refl)
