-- ===== src/SqlState/InvalidTransactionState.antt =====
-- SQLSTATE class 25: `invalid_transaction_state` and the types derived from it in exception.hpp, and the case of
-- `throw_sqlstate` in src/lib/pq/exception.cpp that throws them.
use taopq.Base.{List, [], ◌∷◌, Bytes, codes, bytes_eq, ◌≡◌, refl, ◌⊎◌}
use taopq.SqlState.Table.{pick, pick-code, agree, first, second}

-- `generic` is an object of the base type itself.
pub data InvalidTransactionState : Type 0 where
  generic active_sql_transaction branch_transaction_already_active
        held_cursor_requires_same_isolation_level inappropriate_access_mode_for_branch_transaction
        inappropriate_isolation_level_for_branch_transaction
        no_active_sql_transaction_for_branch_transaction read_only_sql_transaction
        schema_and_data_statement_mixing_not_supported no_active_sql_transaction
        in_failed_sql_transaction idle_in_transaction_session_timeout :
      InvalidTransactionState

-- The code that stands beside each type.
unfoldable pub code : InvalidTransactionState → Bytes
code generic = codes "25xxx"
code active_sql_transaction = codes "25001"
code branch_transaction_already_active = codes "25002"
code held_cursor_requires_same_isolation_level = codes "25008"
code inappropriate_access_mode_for_branch_transaction = codes "25003"
code inappropriate_isolation_level_for_branch_transaction = codes "25004"
code no_active_sql_transaction_for_branch_transaction = codes "25005"
code read_only_sql_transaction = codes "25006"
code schema_and_data_statement_mixing_not_supported = codes "25007"
code no_active_sql_transaction = codes "25P01"
code in_failed_sql_transaction = codes "25P02"
code idle_in_transaction_session_timeout = codes "25P03"

-- The tests of the case, in their order.
abbrev rows : List (Bytes × InvalidTransactionState)
rows =
    (codes "25001", active_sql_transaction)
    ∷ (codes "25002", branch_transaction_already_active)
    ∷ (codes "25008", held_cursor_requires_same_isolation_level)
    ∷ (codes "25003", inappropriate_access_mode_for_branch_transaction)
    ∷ (codes "25004", inappropriate_isolation_level_for_branch_transaction)
    ∷ (codes "25005", no_active_sql_transaction_for_branch_transaction)
    ∷ (codes "25006", read_only_sql_transaction)
    ∷ (codes "25007", schema_and_data_statement_mixing_not_supported)
    ∷ (codes "25P01", no_active_sql_transaction)
    ∷ (codes "25P02", in_failed_sql_transaction)
    ∷ (codes "25P03", idle_in_transaction_session_timeout)
    ∷ []

unfoldable pub throw_invalid_transaction_state : Bytes → InvalidTransactionState
unfolding pick bytes_eq
throw_invalid_transaction_state s = pick rows generic s

-- An exception that is not of the base type is thrown for its own code only.
pub throw-code :
    (s : Bytes)
    → (throw_invalid_transaction_state s ≡ generic) ⊎ (code (throw_invalid_transaction_state s) ≡ s)
unfolding throw_invalid_transaction_state code agree
throw-code s = pick-code code rows generic s refl

pub throw_code_lem : (e : InvalidTransactionState) → throw_invalid_transaction_state (code e) ≡ e
unfolding throw_invalid_transaction_state code
throw_code_lem generic = refl
throw_code_lem _ = refl

pub code-class : (e : InvalidTransactionState) → (first (code e) ≡ b'2') × (second (code e) ≡ b'5')
unfolding code first second
code-class generic = (refl, refl)
code-class _ = (refl, refl)
