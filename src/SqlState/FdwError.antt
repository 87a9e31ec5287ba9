-- ===== src/SqlState/FdwError.antt =====
-- SQLSTATE class HV: `fdw_error` and the types derived from it in exception.hpp, and the case of
-- `throw_sqlstate` in src/lib/pq/exception.cpp that throws them.
use taopq.Base.{List, [], ◌∷◌, Bytes, codes, bytes_eq, ◌≡◌, refl, ◌⊎◌}
use taopq.SqlState.Table.{pick, pick-code, agree, first, second}

-- `generic` is an object of the base type itself.
pub data FdwError : Type 0 where
  generic fdw_out_of_memory fdw_dynamic_parameter_value_needed fdw_invalid_data_type
        fdw_column_name_not_found fdw_invalid_data_type_descriptors fdw_invalid_column_name
        fdw_invalid_column_number fdw_invalid_use_of_null_pointer fdw_invalid_string_format
        fdw_invalid_handle fdw_invalid_option_index fdw_invalid_option_name
        fdw_option_name_not_found fdw_reply_handle fdw_unable_to_create_execution
        fdw_unable_to_create_reply fdw_unable_to_establish_connection fdw_no_schemas
        fdw_schema_not_found fdw_table_not_found fdw_function_sequence_error fdw_too_many_handles
        fdw_inconsistent_descriptor_information fdw_invalid_attribute_value
        fdw_invalid_string_length_or_buffer_length fdw_invalid_descriptor_field_identifier :
      FdwError

-- The code that stands beside each type.
unfoldable pub code : FdwError → Bytes
code generic = codes "HVxxx"
code fdw_out_of_memory = codes "HV001"
code fdw_dynamic_parameter_value_needed = codes "HV002"
code fdw_invalid_data_type = codes "HV004"
code fdw_column_name_not_found = codes "HV005"
code fdw_invalid_data_type_descriptors = codes "HV006"
code fdw_invalid_column_name = codes "HV007"
code fdw_invalid_column_number = codes "HV008"
code fdw_invalid_use_of_null_pointer = codes "HV009"
code fdw_invalid_string_format = codes "HV00A"
code fdw_invalid_handle = codes "HV00B"
code fdw_invalid_option_index = codes "HV00C"
code fdw_invalid_option_name = codes "HV00D"
code fdw_option_name_not_found = codes "HV00J"
code fdw_reply_handle = codes "HV00K"
code fdw_unable_to_create_execution = codes "HV00L"
code fdw_unable_to_create_reply = codes "HV00M"
code fdw_unable_to_establish_connection = codes "HV00N"
code fdw_no_schemas = codes "HV00P"
code fdw_schema_not_found = codes "HV00Q"
code fdw_table_not_found = codes "HV00R"
code fdw_function_sequence_error = codes "HV010"
code fdw_too_many_handles = codes "HV014"
code fdw_inconsistent_descriptor_information = codes "HV021"
code fdw_invalid_attribute_value = codes "HV024"
code fdw_invalid_string_length_or_buffer_length = codes "HV090"
code fdw_invalid_descriptor_field_identifier = codes "HV091"

-- The tests of the case, in their order.
abbrev rows : List (Bytes × FdwError)
rows =
    (codes "HV001", fdw_out_of_memory)
    ∷ (codes "HV002", fdw_dynamic_parameter_value_needed)
    ∷ (codes "HV004", fdw_invalid_data_type)
    ∷ (codes "HV005", fdw_column_name_not_found)
    ∷ (codes "HV006", fdw_invalid_data_type_descriptors)
    ∷ (codes "HV007", fdw_invalid_column_name)
    ∷ (codes "HV008", fdw_invalid_column_number)
    ∷ (codes "HV009", fdw_invalid_use_of_null_pointer)
    ∷ (codes "HV00A", fdw_invalid_string_format)
    ∷ (codes "HV00B", fdw_invalid_handle)
    ∷ (codes "HV00C", fdw_invalid_option_index)
    ∷ (codes "HV00D", fdw_invalid_option_name)
    ∷ (codes "HV00J", fdw_option_name_not_found)
    ∷ (codes "HV00K", fdw_reply_handle)
    ∷ (codes "HV00L", fdw_unable_to_create_execution)
    ∷ (codes "HV00M", fdw_unable_to_create_reply)
    ∷ (codes "HV00N", fdw_unable_to_establish_connection)
    ∷ (codes "HV00P", fdw_no_schemas)
    ∷ (codes "HV00Q", fdw_schema_not_found)
    ∷ (codes "HV00R", fdw_table_not_found)
    ∷ (codes "HV010", fdw_function_sequence_error)
    ∷ (codes "HV014", fdw_too_many_handles)
    ∷ (codes "HV021", fdw_inconsistent_descriptor_information)
    ∷ (codes "HV024", fdw_invalid_attribute_value)
    ∷ (codes "HV090", fdw_invalid_string_length_or_buffer_length)
    ∷ (codes "HV091", fdw_invalid_descriptor_field_identifier)
    ∷ []

unfoldable pub throw_fdw_error : Bytes → FdwError
unfolding pick bytes_eq
throw_fdw_error s = pick rows generic s

-- An exception that is not of the base type is thrown for its own code only.
pub throw-code : (s : Bytes) → (throw_fdw_error s ≡ generic) ⊎ (code (throw_fdw_error s) ≡ s)
unfolding throw_fdw_error code agree
throw-code s = pick-code code rows generic s refl

pub throw_code_lem : (e : FdwError) → throw_fdw_error (code e) ≡ e
unfolding throw_fdw_error code
throw_code_lem generic = refl
throw_code_lem _ = refl

pub code-class : (e : FdwError) → (first (code e) ≡ b'H') × (second (code e) ≡ b'V')
unfolding code first second
code-class generic = (refl, refl)
code-class _ = (refl, refl)
