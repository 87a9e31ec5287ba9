-- ===== src/SqlState/OperatorIntervention.antt =====
-- SQLSTATE class 57: `operator_intervention` and the types derived from it in exception.hpp, and the case of
-- `throw_sqlstate` in src/lib/pq/exception.cpp that throws them.
use taopq.Base.{List, [], ◌∷◌, Bytes, codes, bytes_eq, ◌≡◌, refl, ◌⊎◌}
use taopq.SqlState.Table.{pick, pick-code, agree, first, second}

-- `generic` is an object of the base type itself.
pub data OperatorIntervention : Type 0 where
  generic query_canceled admin_shutdown crash_shutdown cannot_connect_now database_dropped :
      OperatorIntervention

-- The code that stands beside each type.
unfoldable pub code : OperatorIntervention → Bytes
code generic = codes "57xxx"
code query_canceled = codes "57014"
code admin_shutdown = codes "57P01"
code crash_shutdown = codes "57P02"
code cannot_connect_now = codes "57P03"
code database_dropped = codes "57P04"

-- The tests of the case, in their order.
abbrev rows : List (Bytes × OperatorIntervention)
rows =
    (codes "57014", query_canceled)
    ∷ (codes "57P01", admin_shutdown)
    ∷ (codes "57P02", crash_shutdown)
    ∷ (codes "57P03", cannot_connect_now)
    ∷ (codes "57P04", database_dropped)
    ∷ []

unfoldable pub throw_operator_intervention : Bytes → OperatorIntervention
unfolding pick bytes_eq
throw_operator_intervention s = pick rows generic s

-- An exception that is not of the base type is thrown for its own code only.
pub throw-code :
    (s : Bytes)
    → (throw_operator_intervention s ≡ generic) ⊎ (code (throw_operator_intervention s) ≡ s)
unfolding throw_operator_intervention code agree
throw-code s = pick-code code rows generic s refl

pub throw_code_lem : (e : OperatorIntervention) → throw_operator_intervention (code e) ≡ e
unfolding throw_operator_intervention code
throw_code_lem generic = refl
throw_code_lem _ = refl

pub code-class : (e : OperatorIntervention) → (first (code e) ≡ b'5') × (second (code e) ≡ b'7')
unfolding code first second
code-class generic = (refl, refl)
code-class _ = (refl, refl)
