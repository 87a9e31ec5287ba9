-- ===== src/SqlState/DataException.antt =====
-- SQLSTATE class 22: `data_exception` and the types derived from it in exception.hpp, and the case of
-- `throw_sqlstate` in src/lib/pq/exception.cpp that throws them.
use taopq.Base.{List, [], ◌∷◌, Bytes, codes, bytes_eq, ◌≡◌, refl, ◌⊎◌}
use taopq.SqlState.Table.{pick, pick-code, agree, first, second}

-- `generic` is an object of the base type itself.
pub data DataException : Type 0 where
  generic array_subscript_error character_not_in_repertoire datetime_field_overflow division_by_zero
        error_in_assignment escape_character_conflict indicator_overflow interval_field_overflow
        invalid_argument_for_logarithm invalid_argument_for_ntile_function
        invalid_argument_for_nth_value_function invalid_argument_for_power_function
        invalid_argument_for_width_bucket_function invalid_character_value_for_cast
        invalid_datetime_format invalid_escape_character invalid_escape_octet
        invalid_escape_sequence nonstandard_use_of_escape_character
        invalid_indicator_parameter_value invalid_parameter_value
        invalid_preceding_or_following_size invalid_regular_expression
        invalid_row_count_in_limit_clause invalid_row_count_in_result_offset_clause
        invalid_tablesample_argument invalid_tablesample_repeat invalid_time_zone_displacement_value
        invalid_use_of_escape_character most_specific_type_mismatch null_value_not_allowed
        null_value_no_indicator_parameter numeric_value_out_of_range
        sequence_generator_limit_exceeded string_data_length_mismatch
        string_data_right_truncation_data_exception substring_error trim_error unterminated_c_string
        zero_length_character_string floating_point_exception invalid_text_representation
        invalid_binary_representation bad_copy_file_format untranslatable_character
        not_an_xml_document invalid_xml_document invalid_xml_content invalid_xml_comment
        invalid_xml_processing_instruction duplicate_json_object_key_value
        invalid_argument_for_sql_json_datetime_function invalid_json_text invalid_sql_json_subscript
        more_than_one_sql_json_item no_sql_json_item non_numeric_sql_json_item
        non_unique_keys_in_a_json_object singleton_sql_json_item_required sql_json_array_not_found
        sql_json_member_not_found sql_json_number_not_found sql_json_object_not_found
        too_many_json_array_elements too_many_json_object_members sql_json_scalar_required :
      DataException

-- The code that stands beside each type.
unfoldable pub code : DataException → Bytes
code generic = codes "22xxx"
code array_subscript_error = codes "2202E"
code character_not_in_repertoire = codes "22021"
code datetime_field_overflow = codes "22008"
code division_by_zero = codes "22012"
code error_in_assignment = codes "22005"
code escape_character_conflict = codes "2200B"
code indicator_overflow = codes "22022"
code interval_field_overflow = codes "22015"
code invalid_argument_for_logarithm = codes "2201E"
code invalid_argument_for_ntile_function = codes "22014"
code invalid_argument_for_nth_value_function = codes "22016"
code invalid_argument_for_power_function = codes "2201F"
code invalid_argument_for_width_bucket_function = codes "2201G"
code invalid_character_value_for_cast = codes "22018"
code invalid_datetime_format = codes "22007"
code invalid_escape_character = codes "22019"
code invalid_escape_octet = codes "2200D"
code invalid_escape_sequence = codes "22025"
code nonstandard_use_of_escape_character = codes "22P06"
code invalid_indicator_parameter_value = codes "22010"
code invalid_parameter_value = codes "22023"
code invalid_preceding_or_following_size = codes "22013"
code invalid_regular_expression = codes "2201B"
code invalid_row_count_in_limit_clause = codes "2201W"
code invalid_row_count_in_result_offset_clause = codes "2201X"
code invalid_tablesample_argument = codes "2202H"
code invalid_tablesample_repeat = codes "2202G"
code invalid_time_zone_displacement_value = codes "22009"
code invalid_use_of_escape_character = codes "2200C"
code most_specific_type_mismatch = codes "2200G"
code null_value_not_allowed = codes "22004"
code null_value_no_indicator_parameter = codes "22002"
code numeric_value_out_of_range = codes "22003"
code sequence_generator_limit_exceeded = codes "2200H"
code string_data_length_mismatch = codes "22026"
code string_data_right_truncation_data_exception = codes "22001"
code substring_error = codes "22011"
code trim_error = codes "22027"
code unterminated_c_string = codes "22024"
code zero_length_character_string = codes "2200F"
code floating_point_exception = codes "22P01"
code invalid_text_representation = codes "22P02"
code invalid_binary_representation = codes "22P03"
code bad_copy_file_format = codes "22P04"
code untranslatable_character = codes "22P05"
code not_an_xml_document = codes "2200L"
code invalid_xml_document = codes "2200M"
code invalid_xml_content = codes "2200N"
code invalid_xml_comment = codes "2200S"
code invalid_xml_processing_instruction = codes "2200T"
code duplicate_json_object_key_value = codes "22030"
code invalid_argument_for_sql_json_datetime_function = codes "22031"
code invalid_json_text = codes "22032"
code invalid_sql_json_subscript = codes "22033"
code more_than_one_sql_json_item = codes "22034"
code no_sql_json_item = codes "22035"
code non_numeric_sql_json_item = codes "22036"
code non_unique_keys_in_a_json_object = codes "22037"
code singleton_sql_json_item_required = codes "22038"
code sql_json_array_not_found = codes "22039"
code sql_json_member_not_found = codes "2203A"
code sql_json_number_not_found = codes "2203B"
code sql_json_object_not_found = codes "2203C"
code too_many_json_array_elements = codes "2203D"
code too_many_json_object_members = codes "2203E"
code sql_json_scalar_required = codes "2203F"

-- The tests of the case, in their order.
abbrev rows : List (Bytes × DataException)
rows =
    (codes "2202E", array_subscript_error)
    ∷ (codes "22021", character_not_in_repertoire)
    ∷ (codes "22008", datetime_field_overflow)
    ∷ (codes "22012", division_by_zero)
    ∷ (codes "22005", error_in_assignment)
    ∷ (codes "2200B", escape_character_conflict)
    ∷ (codes "22022", indicator_overflow)
    ∷ (codes "22015", interval_field_overflow)
    ∷ (codes "2201E", invalid_argument_for_logarithm)
    ∷ (codes "22014", invalid_argument_for_ntile_function)
    ∷ (codes "22016", invalid_argument_for_nth_value_function)
    ∷ (codes "2201F", invalid_argument_for_power_function)
    ∷ (codes "2201G", invalid_argument_for_width_bucket_function)
    ∷ (codes "22018", invalid_character_value_for_cast)
    ∷ (codes "22007", invalid_datetime_format)
    ∷ (codes "22019", invalid_escape_character)
    ∷ (codes "2200D", invalid_escape_octet)
    ∷ (codes "22025", invalid_escape_sequence)
    ∷ (codes "22P06", nonstandard_use_of_escape_character)
    ∷ (codes "22010", invalid_indicator_parameter_value)
    ∷ (codes "22023", invalid_parameter_value)
    ∷ (codes "22013", invalid_preceding_or_following_size)
    ∷ (codes "2201B", invalid_regular_expression)
    ∷ (codes "2201W", invalid_row_count_in_limit_clause)
    ∷ (codes "2201X", invalid_row_count_in_result_offset_clause)
    ∷ (codes "2202H", invalid_tablesample_argument)
    ∷ (codes "2202G", invalid_tablesample_repeat)
    ∷ (codes "22009", invalid_time_zone_displacement_value)
    ∷ (codes "2200C", invalid_use_of_escape_character)
    ∷ (codes "2200G", most_specific_type_mismatch)
    ∷ (codes "22004", null_value_not_allowed)
    ∷ (codes "22002", null_value_no_indicator_parameter)
    ∷ (codes "22003", numeric_value_out_of_range)
    ∷ (codes "2200H", sequence_generator_limit_exceeded)
    ∷ (codes "22026", string_data_length_mismatch)
    ∷ (codes "22001", string_data_right_truncation_data_exception)
    ∷ (codes "22011", substring_error)
    ∷ (codes "22027", trim_error)
    ∷ (codes "22024", unterminated_c_string)
    ∷ (codes "2200F", zero_length_character_string)
    ∷ (codes "22P01", floating_point_exception)
    ∷ (codes "22P02", invalid_text_representation)
    ∷ (codes "22P03", invalid_binary_representation)
    ∷ (codes "22P04", bad_copy_file_format)
    ∷ (codes "22P05", untranslatable_character)
    ∷ (codes "2200L", not_an_xml_document)
    ∷ (codes "2200M", invalid_xml_document)
    ∷ (codes "2200N", invalid_xml_content)
    ∷ (codes "2200S", invalid_xml_comment)
    ∷ (codes "2200T", invalid_xml_processing_instruction)
    ∷ (codes "22030", duplicate_json_object_key_value)
    ∷ (codes "22031", invalid_argument_for_sql_json_datetime_function)
    ∷ (codes "22032", invalid_json_text)
    ∷ (codes "22033", invalid_sql_json_subscript)
    ∷ (codes "22034", more_than_one_sql_json_item)
    ∷ (codes "22035", no_sql_json_item)
    ∷ (codes "22036", non_numeric_sql_json_item)
    ∷ (codes "22037", non_unique_keys_in_a_json_object)
    ∷ (codes "22038", singleton_sql_json_item_required)
    ∷ (codes "22039", sql_json_array_not_found)
    ∷ (codes "2203A", sql_json_member_not_found)
    ∷ (codes "2203B", sql_json_number_not_found)
    ∷ (codes "2203C", sql_json_object_not_found)
    ∷ (codes "2203D", too_many_json_array_elements)
    ∷ (codes "2203E", too_many_json_object_members)
    ∷ (codes "2203F", sql_json_scalar_required)
    ∷ []

unfoldable pub throw_data_exception : Bytes → DataException
unfolding pick bytes_eq
throw_data_exception s = pick rows generic s

-- An exception that is not of the base type is thrown for its own code only.
pub throw-code :
    (s : Bytes) → (throw_data_exception s ≡ generic) ⊎ (code (throw_data_exception s) ≡ s)
unfolding throw_data_exception code agree
throw-code s = pick-code code rows generic s refl

pub throw_code_lem : (e : DataException) → throw_data_exception (code e) ≡ e
unfolding throw_data_exception code
throw_code_lem generic = refl
throw_code_lem _ = refl

pub code-class : (e : DataException) → (first (code e) ≡ b'2') × (second (code e) ≡ b'2')
unfolding code first second
code-class generic = (refl, refl)
code-class _ = (refl, refl)
