-- ===== src/SqlState/NoData.antt =====
-- SQLSTATE class 02: `no_data` and the types derived from it in exception.hpp, and the case of
-- `throw_sqlstate` in src/lib/pq/exception.cpp that throws them.
use taopq.Base.{List, [], ◌∷◌, Bytes, codes, bytes_eq, ◌≡◌, refl, ◌⊎◌}
use taopq.SqlState.Table.{pick, pick-code, agree, first, second}

-- `generic` is an object of the base type itself.
pub data NoData : Type 0 where
  generic no_additional_dynamic_result_sets_returned : NoData

-- The code that stands beside each type.
unfoldable pub code : NoData → Bytes
code generic = codes "02xxx"
code no_additional_dynamic_result_sets_returned = codes "02001"

-- The tests of the case, in their order.
abbrev rows : List (Bytes × NoData)
rows = (codes "02001", no_additional_dynamic_result_sets_returned) ∷ []

unfoldable pub throw_no_data : Bytes → NoData
unfolding pick bytes_eq
throw_no_data s = pick rows generic s

-- An exception that is not of the base type is thrown for its own code only.
pub throw-code : (s : Bytes) → (throw_no_data s ≡ generic) ⊎ (code (throw_no_data s) ≡ s)
unfolding throw_no_data code agree
throw-code s = pick-code code rows generic s refl

pub throw_code_lem : (e : NoData) → throw_no_data (code e) ≡ e
unfolding throw_no_data code
throw_code_lem generic = refl
throw_code_lem _ = refl

pub code-class : (e : NoData) → (first (code e) ≡ b'0') × (second (code e) ≡ b'2')
unfolding code first second
code-class generic = (refl, refl)
code-class _ = (refl, refl)
