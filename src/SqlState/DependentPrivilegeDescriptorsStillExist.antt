-- ===== src/SqlState/DependentPrivilegeDescriptorsStillExist.antt =====
-- SQLSTATE class 2B: `dependent_privilege_descriptors_still_exist` and the types derived from it in exception.hpp, and the case of
-- `throw_sqlstate` in src/lib/pq/exception.cpp that throws them.
use taopq.Base.{List, [], ◌∷◌, Bytes, codes, bytes_eq, ◌≡◌, refl, ◌⊎◌}
use taopq.SqlState.Table.{pick, pick-code, agree, first, second}

-- `generic` is an object of the base type itself.
pub data DependentPrivilegeDescriptorsStillExist : Type 0 where
  generic dependent_objects_still_exist : DependentPrivilegeDescriptorsStillExist

-- The code that stands beside each type.
unfoldable pub code : DependentPrivilegeDescriptorsStillExist → Bytes
code generic = codes "2Bxxx"
code dependent_objects_still_exist = codes "2BP01"

-- The tests of the case, in their order.
abbrev rows : List (Bytes × DependentPrivilegeDescriptorsStillExist)
rows = (codes "2BP01", dependent_objects_still_exist) ∷ []

unfoldable pub throw_dependent_privilege_descriptors_still_exist :
    Bytes → DependentPrivilegeDescriptorsStillExist
unfolding pick bytes_eq
throw_dependent_privilege_descriptors_still_exist s = pick rows generic s

-- An exception that is not of the base type is thrown for its own code only.
pub throw-code :
    (s : Bytes)
    → (throw_dependent_privilege_descriptors_still_exist s ≡ generic)
      ⊎ (code (throw_dependent_privilege_descriptors_still_exist s) ≡ s)
unfolding throw_dependent_privilege_descriptors_still_exist code agree
throw-code s = pick-code code rows generic s refl

pub throw_code_lem :
    (e : DependentPrivilegeDescriptorsStillExist)
    → throw_dependent_privilege_descriptors_still_exist (code e) ≡ e
unfolding throw_dependent_privilege_descriptors_still_exist code
throw_code_lem generic = refl
throw_code_lem _ = refl

pub code-class :
    (e : DependentPrivilegeDescriptorsStillExist)
    → (first (code e) ≡ b'2') × (second (code e) ≡ b'B')
unfolding code first second
code-class generic = (refl, refl)
code-class _ = (refl, refl)
