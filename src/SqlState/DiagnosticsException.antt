-- ===== src/SqlState/DiagnosticsException.antt =====
-- SQLSTATE class 0Z: `diagnostics_exception` and the types derived from it in exception.hpp, and the case of
-- `throw_sqlstate` in src/lib/pq/exception.cpp that throws them.
use taopq.Base.{List, [], ◌∷◌, Bytes, codes, bytes_eq, ◌≡◌, refl, ◌⊎◌}
use taopq.SqlState.Table.{pick, pick-code, agree, first, second}

-- `generic` is an object of the base type itself.
pub data DiagnosticsException : Type 0 where
  generic stacked_diagnostics_accessed_without_active_handler : DiagnosticsException

-- The code that stands beside each type.
unfoldable pub code : DiagnosticsException → Bytes
code generic = codes "0Zxxx"
code stacked_diagnostics_accessed_without_active_handler = codes "0Z002"

-- The tests of the case, in their order.
abbrev rows : List (Bytes × DiagnosticsException)
rows = (codes "0Z002", stacked_diagnostics_accessed_without_active_handler) ∷ []

unfoldable pub throw_diagnostics_exception : Bytes → DiagnosticsException
unfolding pick bytes_eq
throw_diagnostics_exception s = pick rows generic s

-- An exception that is not of the base type is thrown for its own code only.
pub throw-code :
    (s : Bytes)
    → (throw_diagnostics_exception s ≡ generic) ⊎ (code (throw_diagnostics_exception s) ≡ s)
unfolding throw_diagnostics_exception code agree
throw-code s = pick-code code rows generic s refl

pub throw_code_lem : (e : DiagnosticsException) → throw_diagnostics_exception (code e) ≡ e
unfolding throw_diagnostics_exception code
throw_code_lem generic = refl
throw_code_lem _ = refl

pub code-class : (e : DiagnosticsException) → (first (code e) ≡ b'0') × (second (code e) ≡ b'Z')
unfolding code first second
code-class generic = (refl, refl)
code-class _ = (refl, refl)
