-- ===== src/SqlState/ConnectionError.antt =====
-- SQLSTATE class 08: `connection_error` and the types derived from it in exception.hpp, and the case of
-- `throw_sqlstate` in src/lib/pq/exception.cpp that throws them.
use taopq.Base.{List, [], ◌∷◌, Bytes, codes, bytes_eq, ◌≡◌, refl, ◌⊎◌}
use taopq.SqlState.Table.{pick, pick-code, agree, first, second}

-- `generic` is an object of the base type itself.
pub data ConnectionError : Type 0 where
  generic sqlclient_unable_to_establish_sqlconnection connection_does_not_exist
        sqlserver_rejected_establishment_of_sqlconnection connection_failure
        transaction_resolution_unknown protocol_violation :
      ConnectionError

-- The code that stands beside each type.
unfoldable pub code : ConnectionError → Bytes
code generic = codes "08xxx"
code sqlclient_unable_to_establish_sqlconnection = codes "08001"
code connection_does_not_exist = codes "08003"
code sqlserver_rejected_establishment_of_sqlconnection = codes "08004"
code connection_failure = codes "08006"
code transaction_resolution_unknown = codes "08007"
code protocol_violation = codes "08P01"

-- The tests of the case, in their order.
abbrev rows : List (Bytes × ConnectionError)
rows =
    (codes "08001", sqlclient_unable_to_establish_sqlconnection)
    ∷ (codes "08003", connection_does_not_exist)
    ∷ (codes "08004", sqlserver_rejected_establishment_of_sqlconnection)
    ∷ (codes "08006", connection_failure)
    ∷ (codes "08007", transaction_resolution_unknown)
    ∷ (codes "08P01", protocol_violation)
    ∷ []

unfoldable pub throw_connection_error : Bytes → ConnectionError
unfolding pick bytes_eq
throw_connection_error s = pick rows generic s

-- An exception that is not of the base type is thrown for its own code only.
pub throw-code :
    (s : Bytes) → (throw_connection_error s ≡ generic) ⊎ (code (throw_connection_error s) ≡ s)
unfolding throw_connection_error code agree
throw-code s = pick-code code rows generic s refl

pub throw_code_lem : (e : ConnectionError) → throw_connection_error (code e) ≡ e
unfolding throw_connection_error code
throw_code_lem generic = refl
throw_code_lem _ = refl

pub code-class : (e : ConnectionError) → (first (code e) ≡ b'0') × (second (code e) ≡ b'8')
unfolding code first second
code-class generic = (refl, refl)
code-class _ = (refl, refl)
