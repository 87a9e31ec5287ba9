-- ===== src/SqlState/ObjectNotInPrerequisiteState.antt =====
-- SQLSTATE class 55: `object_not_in_prerequisite_state` and the types derived from it in exception.hpp, and the case of
-- `throw_sqlstate` in src/lib/pq/exception.cpp that throws them.
use taopq.Base.{List, [], ◌∷◌, Bytes, codes, bytes_eq, ◌≡◌, refl, ◌⊎◌}
use taopq.SqlState.Table.{pick, pick-code, agree, first, second}

-- `generic` is an object of the base type itself.
pub data ObjectNotInPrerequisiteState : Type 0 where
  generic object_in_use cant_change_runtime_param lock_not_available unsafe_new_enum_value_usage :
      ObjectNotInPrerequisiteState

-- The code that stands beside each type.
unfoldable pub code : ObjectNotInPrerequisiteState → Bytes
code generic = codes "55xxx"
code object_in_use = codes "55006"
code cant_change_runtime_param = codes "55P02"
code lock_not_available = codes "55P03"
code unsafe_new_enum_value_usage = codes "55P04"

-- The tests of the case, in their order.
abbrev rows : List (Bytes × ObjectNotInPrerequisiteState)
rows =
    (codes "55006", object_in_use)
    ∷ (codes "55P02", cant_change_runtime_param)
    ∷ (codes "55P03", lock_not_available)
    ∷ (codes "55P04", unsafe_new_enum_value_usage)
    ∷ []

unfoldable pub throw_object_not_in_prerequisite_state : Bytes → ObjectNotInPrerequisiteState
unfolding pick bytes_eq
throw_object_not_in_prerequisite_state s = pick rows generic s

-- An exception that is not of the base type is thrown for its own code only.
pub throw-code :
    (s : Bytes)
    → (throw_object_not_in_prerequisite_state s ≡ generic)
      ⊎ (code (throw_object_not_in_prerequisite_state s) ≡ s)
unfolding throw_object_not_in_prerequisite_state code agree
throw-code s = pick-code code rows generic s refl

pub throw_code_lem :
    (e : ObjectNotInPrerequisiteState) → throw_object_not_in_prerequisite_state (code e) ≡ e
unfolding throw_object_not_in_prerequisite_state code
throw_code_lem generic = refl
throw_code_lem _ = refl

pub code-class :
    (e : ObjectNotInPrerequisiteState) → (first (code e) ≡ b'5') × (second (code e) ≡ b'5')
unfolding code first second
code-class generic = (refl, refl)
code-class _ = (refl, refl)
