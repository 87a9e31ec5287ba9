-- ===== src/SqlState/Warning.antt =====
-- SQLSTATE class 01: `warning` and the types derived from it in exception.hpp, and the case of
-- `throw_sqlstate` in src/lib/pq/exception.cpp that throws them.
use taopq.Base.{List, [], ◌∷◌, Bytes, codes, bytes_eq, ◌≡◌, refl, ◌⊎◌}
use taopq.SqlState.Table.{pick, pick-code, agree, first, second}

-- `generic` is an object of the base type itself.
pub data Warning : Type 0 where
  generic null_value_eliminated_in_set_function string_data_right_truncation_warning
        privilege_not_revoked privilege_not_granted implicit_zero_bit_padding
        dynamic_result_sets_returned deprecated_feature :
      Warning

-- The code that stands beside each type.
unfoldable pub code : Warning → Bytes
code generic = codes "01xxx"
code null_value_eliminated_in_set_function = codes "01003"
code string_data_right_truncation_warning = codes "01004"
code privilege_not_revoked = codes "01006"
code privilege_not_granted = codes "01007"
code implicit_zero_bit_padding = codes "01008"
code dynamic_result_sets_returned = codes "0100C"
code deprecated_feature = codes "01P01"

-- The tests of the case, in their order.
abbrev rows : List (Bytes × Warning)
rows =
    (codes "01003", null_value_eliminated_in_set_function)
    ∷ (codes "01004", string_data_right_truncation_warning)
    ∷ (codes "01006", privilege_not_revoked)
    ∷ (codes "01007", privilege_not_granted)
    ∷ (codes "01008", implicit_zero_bit_padding)
    ∷ (codes "0100C", dynamic_result_sets_returned)
    ∷ (codes "01P01", deprecated_feature)
    ∷ []

unfoldable pub throw_warning : Bytes → Warning
unfolding pick bytes_eq
throw_warning s = pick rows generic s

-- An exception that is not of the base type is thrown for its own code only.
pub throw-code : (s : Bytes) → (throw_warning s ≡ generic) ⊎ (code (throw_warning s) ≡ s)
unfolding throw_warning code agree
throw-code s = pick-code code rows generic s refl

pub throw_code_lem : (e : Warning) → throw_warning (code e) ≡ e
unfolding throw_warning code
throw_code_lem generic = refl
throw_code_lem _ = refl

pub code-class : (e : Warning) → (first (code e) ≡ b'0') × (second (code e) ≡ b'1')
unfolding code first second
code-class generic = (refl, refl)
code-class _ = (refl, refl)
