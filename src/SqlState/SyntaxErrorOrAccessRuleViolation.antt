-- ===== src/SqlState/SyntaxErrorOrAccessRuleViolation.antt =====
-- SQLSTATE class 42: `syntax_error_or_access_rule_violation` and the types derived from it in exception.hpp, and the case of
-- `throw_sqlstate` in src/lib/pq/exception.cpp that throws them.
use taopq.Base.{List, [], ◌∷◌, Bytes, codes, bytes_eq, ◌≡◌, refl, ◌⊎◌}
use taopq.SqlState.Table.{pick, pick-code, agree, first, second}

-- `generic` is an object of the base type itself.
pub data SyntaxErrorOrAccessRuleViolation : Type 0 where
  generic insufficient_privilege syntax_error invalid_name invalid_column_definition name_too_long
        duplicate_column ambiguous_column undefined_column undefined_object duplicate_object
        duplicate_alias duplicate_function ambiguous_function grouping_error datatype_mismatch
        wrong_object_type invalid_foreign_key cannot_coerce undefined_function generated_always
        reserved_name undefined_table undefined_parameter duplicate_cursor duplicate_database
        duplicate_prepared_statement duplicate_schema duplicate_table ambiguous_parameter
        ambiguous_alias invalid_column_reference invalid_cursor_definition
        invalid_database_definition invalid_function_definition
        invalid_prepared_statement_definition invalid_schema_definition invalid_table_definition
        invalid_object_definition indeterminate_datatype invalid_recursion windowing_error
        collation_mismatch indeterminate_collation :
      SyntaxErrorOrAccessRuleViolation

-- The code that stands beside each type.
unfoldable pub code : SyntaxErrorOrAccessRuleViolation → Bytes
code generic = codes "42xxx"
code insufficient_privilege = codes "42501"
code syntax_error = codes "42601"
code invalid_name = codes "42602"
code invalid_column_definition = codes "42611"
code name_too_long = codes "42622"
code duplicate_column = codes "42701"
code ambiguous_column = codes "42702"
code undefined_column = codes "42703"
code undefined_object = codes "42704"
code duplicate_object = codes "42710"
code duplicate_alias = codes "42712"
code duplicate_function = codes "42723"
code ambiguous_function = codes "42725"
code grouping_error = codes "42803"
code datatype_mismatch = codes "42804"
code wrong_object_type = codes "42809"
code invalid_foreign_key = codes "42830"
code cannot_coerce = codes "42846"
code undefined_function = codes "42883"
code generated_always = codes "428C9"
code reserved_name = codes "42939"
code undefined_table = codes "42P01"
code undefined_parameter = codes "42P02"
code duplicate_cursor = codes "42P03"
code duplicate_database = codes "42P04"
code duplicate_prepared_statement = codes "42P05"
code duplicate_schema = codes "42P06"
code duplicate_table = codes "42P07"
code ambiguous_parameter = codes "42P08"
code ambiguous_alias = codes "42P09"
code invalid_column_reference = codes "42P10"
code invalid_cursor_definition = codes "42P11"
code invalid_database_definition = codes "42P12"
code invalid_function_definition = codes "42P13"
code invalid_prepared_statement_definition = codes "42P14"
code invalid_schema_definition = codes "42P15"
code invalid_table_definition = codes "42P16"
code invalid_object_definition = codes "42P17"
code indeterminate_datatype = codes "42P18"
code invalid_recursion = codes "42P19"
code windowing_error = codes "42P20"
code collation_mismatch = codes "42P21"
code indeterminate_collation = codes "42P22"

-- The tests of the case, in their order.
abbrev rows : List (Bytes × SyntaxErrorOrAccessRuleViolation)
rows =
    (codes "42501", insufficient_privilege)
    ∷ (codes "42601", syntax_error)
    ∷ (codes "42602", invalid_name)
    ∷ (codes "42611", invalid_column_definition)
    ∷ (codes "42622", name_too_long)
    ∷ (codes "42701", duplicate_column)
    ∷ (codes "42702", ambiguous_column)
    ∷ (codes "42703", undefined_column)
    ∷ (codes "42704", undefined_object)
    ∷ (codes "42710", duplicate_object)
    ∷ (codes "42712", duplicate_alias)
    ∷ (codes "42723", duplicate_function)
    ∷ (codes "42725", ambiguous_function)
    ∷ (codes "42803", grouping_error)
    ∷ (codes "42804", datatype_mismatch)
    ∷ (codes "42809", wrong_object_type)
    ∷ (codes "42830", invalid_foreign_key)
    ∷ (codes "42846", cannot_coerce)
    ∷ (codes "42883", undefined_function)
    ∷ (codes "428C9", generated_always)
    ∷ (codes "42939", reserved_name)
    ∷ (codes "42P01", undefined_table)
    ∷ (codes "42P02", undefined_parameter)
    ∷ (codes "42P03", duplicate_cursor)
    ∷ (codes "42P04", duplicate_database)
    ∷ (codes "42P05", duplicate_prepared_statement)
    ∷ (codes "42P06", duplicate_schema)
    ∷ (codes "42P07", duplicate_table)
    ∷ (codes "42P08", ambiguous_parameter)
    ∷ (codes "42P09", ambiguous_alias)
    ∷ (codes "42P10", invalid_column_reference)
    ∷ (codes "42P11", invalid_cursor_definition)
    ∷ (codes "42P12", invalid_database_definition)
    ∷ (codes "42P13", invalid_function_definition)
    ∷ (codes "42P14", invalid_prepared_statement_definition)
    ∷ (codes "42P15", invalid_schema_definition)
    ∷ (codes "42P16", invalid_table_definition)
    ∷ (codes "42P17", invalid_object_definition)
    ∷ (codes "42P18", indeterminate_datatype)
    ∷ (codes "42P19", invalid_recursion)
    ∷ (codes "42P20", windowing_error)
    ∷ (codes "42P21", collation_mismatch)
    ∷ (codes "42P22", indeterminate_collation)
    ∷ []

unfoldable pub throw_syntax_error_or_access_rule_violation :
    Bytes → SyntaxErrorOrAccessRuleViolation
unfolding pick bytes_eq
throw_syntax_error_or_access_rule_violation s = pick rows generic s

-- An exception that is not of the base type is thrown for its own code only.
pub throw-code :
    (s : Bytes)
    → (throw_syntax_error_or_access_rule_violation s ≡ generic)
      ⊎ (code (throw_syntax_error_or_access_rule_violation s) ≡ s)
unfolding throw_syntax_error_or_access_rule_violation code agree
throw-code s = pick-code code rows generic s refl

pub throw_code_lem :
    (e : SyntaxErrorOrAccessRuleViolation)
    → throw_syntax_error_or_access_rule_violation (code e) ≡ e
unfolding throw_syntax_error_or_access_rule_violation code
throw_code_lem generic = refl
throw_code_lem _ = refl

pub code-class :
    (e : SyntaxErrorOrAccessRuleViolation) → (first (code e) ≡ b'4') × (second (code e) ≡ b'2')
unfolding code first second
code-class generic = (refl, refl)
code-class _ = (refl, refl)
