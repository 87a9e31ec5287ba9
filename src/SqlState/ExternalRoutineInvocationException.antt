-- ===== src/SqlState/ExternalRoutineInvocationException.antt =====
-- SQLSTATE class 39: `external_routine_invocation_exception` and the types derived from it in exception.hpp, and the case of
-- `throw_sqlstate` in src/lib/pq/exception.cpp that throws them.
use taopq.Base.{List, [], ◌∷◌, Bytes, codes, bytes_eq, ◌≡◌, refl, ◌⊎◌}
use taopq.SqlState.Table.{pick, pick-code, agree, first, second}

-- `generic` is an object of the base type itself.
pub data ExternalRoutineInvocationException : Type 0 where
  generic invalid_sqlstate_returned external_null_value_not_allowed trigger_protocol_violated
        srf_protocol_violated event_trigger_protocol_violated :
      ExternalRoutineInvocationException

-- The code that stands beside each type.
unfoldable pub code : ExternalRoutineInvocationException → Bytes
code generic = codes "39xxx"
code invalid_sqlstate_returned = codes "39001"
code external_null_value_not_allowed = codes "39004"
code trigger_protocol_violated = codes "39P01"
code srf_protocol_violated = codes "39P02"
code event_trigger_protocol_violated = codes "39P03"

-- The tests of the case, in their order.
abbrev rows : List (Bytes × ExternalRoutineInvocationException)
rows =
    (codes "39001", invalid_sqlstate_returned)
    ∷ (codes "39004", external_null_value_not_allowed)
    ∷ (codes "39P01", trigger_protocol_violated)
    ∷ (codes "39P02", srf_protocol_violated)
    ∷ (codes "39P03", event_trigger_protocol_violated)
    ∷ []

unfoldable pub throw_external_routine_invocation_exception :
    Bytes → ExternalRoutineInvocationException
unfolding pick bytes_eq
throw_external_routine_invocation_exception s = pick rows generic s

-- An exception that is not of the base type is thrown for its own code only.
pub throw-code :
    (s : Bytes)
    → (throw_external_routine_invocation_exception s ≡ generic)
      ⊎ (code (throw_external_routine_invocation_exception s) ≡ s)
unfolding throw_external_routine_invocation_exception code agree
throw-code s = pick-code code rows generic s refl

pub throw_code_lem :
    (e : ExternalRoutineInvocationException)
    → throw_external_routine_invocation_exception (code e) ≡ e
unfolding throw_external_routine_invocation_exception code
throw_code_lem generic = refl
throw_code_lem _ = refl

pub code-class :
    (e : ExternalRoutineInvocationException) → (first (code e) ≡ b'3') × (second (code e) ≡ b'9')
unfolding code first second
code-class generic = (refl, refl)
code-class _ = (refl, refl)
