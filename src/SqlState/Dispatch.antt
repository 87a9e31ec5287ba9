-- ===== src/SqlState/Dispatch.antt =====
-- `throw_sqlstate` of src/lib/pq/exception.cpp, over all the classes of exception.hpp.
use taopq.Base.{ℕ, List, [], ◌∷◌, Bytes, codes, Option, none, some}
use taopq.SqlState.Table.{switch, first, second}
use taopq.SqlState.Warning
use taopq.SqlState.Warning.{Warning, throw_warning}
use taopq.SqlState.NoData
use taopq.SqlState.NoData.{NoData, throw_no_data}
use taopq.SqlState.ConnectionError
use taopq.SqlState.ConnectionError.{ConnectionError, throw_connection_error}
use taopq.SqlState.LocatorException
use taopq.SqlState.LocatorException.{LocatorException, throw_locator_exception}
use taopq.SqlState.InvalidGrantor
use taopq.SqlState.InvalidGrantor.{InvalidGrantor, throw_invalid_grantor}
use taopq.SqlState.DiagnosticsException
use taopq.SqlState.DiagnosticsException.{DiagnosticsException, throw_diagnostics_exception}
use taopq.SqlState.DataException
use taopq.SqlState.DataException.{DataException, throw_data_exception}
use taopq.SqlState.IntegrityConstraintViolation
use taopq.SqlState.IntegrityConstraintViolation.{
  IntegrityConstraintViolation, throw_integrity_constraint_violation,
}
use taopq.SqlState.InvalidTransactionState
use taopq.SqlState.InvalidTransactionState.{
  InvalidTransactionState, throw_invalid_transaction_state,
}
use taopq.SqlState.InvalidAuthorizationSpecification
use taopq.SqlState.InvalidAuthorizationSpecification.{
  InvalidAuthorizationSpecification, throw_invalid_authorization_specification,
}
use taopq.SqlState.DependentPrivilegeDescriptorsStillExist
use taopq.SqlState.DependentPrivilegeDescriptorsStillExist.{
  DependentPrivilegeDescriptorsStillExist, throw_dependent_privilege_descriptors_still_exist,
}
use taopq.SqlState.SqlRoutineException
use taopq.SqlState.SqlRoutineException.{SqlRoutineException, throw_sql_routine_exception}
use taopq.SqlState.ExternalRoutineException
use taopq.SqlState.ExternalRoutineException.{
  ExternalRoutineException, throw_external_routine_exception,
}
use taopq.SqlState.ExternalRoutineInvocationException
use taopq.SqlState.ExternalRoutineInvocationException.{
  ExternalRoutineInvocationException, throw_external_routine_invocation_exception,
}
use taopq.SqlState.SavepointException
use taopq.SqlState.SavepointException.{SavepointException, throw_savepoint_exception}
use taopq.SqlState.TransactionRollback
use taopq.SqlState.TransactionRollback.{TransactionRollback, throw_transaction_rollback}
use taopq.SqlState.SyntaxErrorOrAccessRuleViolation
use taopq.SqlState.SyntaxErrorOrAccessRuleViolation.{
  SyntaxErrorOrAccessRuleViolation, throw_syntax_error_or_access_rule_violation,
}
use taopq.SqlState.InsufficientResources
use taopq.SqlState.InsufficientResources.{InsufficientResources, throw_insufficient_resources}
use taopq.SqlState.ProgramLimitExceeded
use taopq.SqlState.ProgramLimitExceeded.{ProgramLimitExceeded, throw_program_limit_exceeded}
use taopq.SqlState.ObjectNotInPrerequisiteState
use taopq.SqlState.ObjectNotInPrerequisiteState.{
  ObjectNotInPrerequisiteState, throw_object_not_in_prerequisite_state,
}
use taopq.SqlState.OperatorIntervention
use taopq.SqlState.OperatorIntervention.{OperatorIntervention, throw_operator_intervention}
use taopq.SqlState.SystemError
use taopq.SqlState.SystemError.{SystemError, throw_system_error}
use taopq.SqlState.ConfigFileError
use taopq.SqlState.ConfigFileError.{ConfigFileError, throw_config_file_error}
use taopq.SqlState.FdwError
use taopq.SqlState.FdwError.{FdwError, throw_fdw_error}
use taopq.SqlState.PlpgsqlError
use taopq.SqlState.PlpgsqlError.{PlpgsqlError, throw_plpgsql_error}
use taopq.SqlState.InternalError
use taopq.SqlState.InternalError.{InternalError, throw_internal_error}

-- `sql_error` and the types derived from it. A class with types of its own holds one of them.
pub data SqlError : Type 0 where
  sql_error : SqlError
  success : SqlError
  warning : Warning → SqlError
  no_data : NoData → SqlError
  sql_statement_not_yet_complete : SqlError
  connection_error : ConnectionError → SqlError
  triggered_action_exception : SqlError
  feature_not_supported : SqlError
  invalid_transaction_initiation : SqlError
  locator_exception : LocatorException → SqlError
  invalid_grantor : InvalidGrantor → SqlError
  invalid_role_specification : SqlError
  diagnostics_exception : DiagnosticsException → SqlError
  case_not_found : SqlError
  cardinality_violation : SqlError
  data_exception : DataException → SqlError
  integrity_constraint_violation : IntegrityConstraintViolation → SqlError
  invalid_cursor_state : SqlError
  invalid_transaction_state : InvalidTransactionState → SqlError
  invalid_sql_statement_name : SqlError
  triggered_data_change_violation : SqlError
  invalid_authorization_specification : InvalidAuthorizationSpecification → SqlError
  dependent_privilege_descriptors_still_exist : DependentPrivilegeDescriptorsStillExist → SqlError
  invalid_transaction_termination : SqlError
  sql_routine_exception : SqlRoutineException → SqlError
  invalid_cursor_name : SqlError
  external_routine_exception : ExternalRoutineException → SqlError
  external_routine_invocation_exception : ExternalRoutineInvocationException → SqlError
  savepoint_exception : SavepointException → SqlError
  invalid_catalog_name : SqlError
  invalid_schema_name : SqlError
  transaction_rollback : TransactionRollback → SqlError
  syntax_error_or_access_rule_violation : SyntaxErrorOrAccessRuleViolation → SqlError
  with_check_option_violation : SqlError
  insufficient_resources : InsufficientResources → SqlError
  program_limit_exceeded : ProgramLimitExceeded → SqlError
  object_not_in_prerequisite_state : ObjectNotInPrerequisiteState → SqlError
  operator_intervention : OperatorIntervention → SqlError
  system_error : SystemError → SqlError
  snapshot_too_old : SqlError
  config_file_error : ConfigFileError → SqlError
  fdw_error : FdwError → SqlError
  plpgsql_error : PlpgsqlError → SqlError
  internal_error : InternalError → SqlError

-- The code that stands beside each type in exception.hpp; `sql_error` has none.
unfoldable pub documented : SqlError → Bytes
documented sql_error = []
documented success = codes "00xxx"
documented (warning e) = Warning.code e
documented (no_data e) = NoData.code e
documented sql_statement_not_yet_complete = codes "03xxx"
documented (connection_error e) = ConnectionError.code e
documented triggered_action_exception = codes "09xxx"
documented feature_not_supported = codes "0Axxx"
documented invalid_transaction_initiation = codes "0Bxxx"
documented (locator_exception e) = LocatorException.code e
documented (invalid_grantor e) = InvalidGrantor.code e
documented invalid_role_specification = codes "0Pxxx"
documented (diagnostics_exception e) = DiagnosticsException.code e
documented case_not_found = codes "20xxx"
documented cardinality_violation = codes "21xxx"
documented (data_exception e) = DataException.code e
documented (integrity_constraint_violation e) = IntegrityConstraintViolation.code e
documented invalid_cursor_state = codes "24xxx"
documented (invalid_transaction_state e) = InvalidTransactionState.code e
documented invalid_sql_statement_name = codes "26xxx"
documented triggered_data_change_violation = codes "27xxx"
documented (invalid_authorization_specification e) = InvalidAuthorizationSpecification.code e
documented (dependent_privilege_descriptors_still_exist e) =
    DependentPrivilegeDescriptorsStillExist.code e
documented invalid_transaction_termination = codes "2Dxxx"
documented (sql_routine_exception e) = SqlRoutineException.code e
documented invalid_cursor_name = codes "34xxx"
documented (external_routine_exception e) = ExternalRoutineException.code e
documented (external_routine_invocation_exception e) = ExternalRoutineInvocationException.code e
documented (savepoint_exception e) = SavepointException.code e
documented invalid_catalog_name = codes "3Dxxx"
documented invalid_schema_name = codes "3Fxxx"
documented (transaction_rollback e) = TransactionRollback.code e
documented (syntax_error_or_access_rule_violation e) = SyntaxErrorOrAccessRuleViolation.code e
documented with_check_option_violation = codes "44xxx"
documented (insufficient_resources e) = InsufficientResources.code e
documented (program_limit_exceeded e) = ProgramLimitExceeded.code e
documented (object_not_in_prerequisite_state e) = ObjectNotInPrerequisiteState.code e
documented (operator_intervention e) = OperatorIntervention.code e
documented (system_error e) = SystemError.code e
documented snapshot_too_old = codes "72xxx"
documented (config_file_error e) = ConfigFileError.code e
documented (fdw_error e) = FdwError.code e
documented (plpgsql_error e) = PlpgsqlError.code e
documented (internal_error e) = InternalError.code e

-- The inner switch at '0'.
abbrev pub rows_0 : List (ℕ × (Bytes → SqlError))
rows_0 =
    (b'0', λ t. success)
    ∷ (b'1', λ t. warning (throw_warning t))
    ∷ (b'2', λ t. no_data (throw_no_data t))
    ∷ (b'3', λ t. sql_statement_not_yet_complete)
    ∷ (b'8', λ t. connection_error (throw_connection_error t))
    ∷ (b'9', λ t. triggered_action_exception)
    ∷ (b'A', λ t. feature_not_supported)
    ∷ (b'B', λ t. invalid_transaction_initiation)
    ∷ (b'F', λ t. locator_exception (throw_locator_exception t))
    ∷ (b'L', λ t. invalid_grantor (throw_invalid_grantor t))
    ∷ (b'P', λ t. invalid_role_specification)
    ∷ (b'Z', λ t. diagnostics_exception (throw_diagnostics_exception t))
    ∷ []

unfoldable pub case_0 : Bytes → SqlError
case_0 s = switch rows_0 sql_error (second s) s

-- The inner switch at '2'.
abbrev pub rows_2 : List (ℕ × (Bytes → SqlError))
rows_2 =
    (b'0', λ t. case_not_found)
    ∷ (b'1', λ t. cardinality_violation)
    ∷ (b'2', λ t. data_exception (throw_data_exception t))
    ∷ (b'3', λ t. integrity_constraint_violation (throw_integrity_constraint_violation t))
    ∷ (b'4', λ t. invalid_cursor_state)
    ∷ (b'5', λ t. invalid_transaction_state (throw_invalid_transaction_state t))
    ∷ (b'6', λ t. invalid_sql_statement_name)
    ∷ (b'7', λ t. triggered_data_change_violation)
    ∷ (b'8', λ t. invalid_authorization_specification (throw_invalid_authorization_specification t))
    ∷ (
      b'B',
      λ t.
          dependent_privilege_descriptors_still_exist
            (throw_dependent_privilege_descriptors_still_exist t),
    )
    ∷ (b'D', λ t. invalid_transaction_termination)
    ∷ (b'F', λ t. sql_routine_exception (throw_sql_routine_exception t))
    ∷ []

unfoldable pub case_2 : Bytes → SqlError
case_2 s = switch rows_2 sql_error (second s) s

-- The inner switch at '3'.
abbrev pub rows_3 : List (ℕ × (Bytes → SqlError))
rows_3 =
    (b'4', λ t. invalid_cursor_name)
    ∷ (b'8', λ t. external_routine_exception (throw_external_routine_exception t))
    ∷ (
      b'9',
      λ t. external_routine_invocation_exception (throw_external_routine_invocation_exception t),
    )
    ∷ (b'B', λ t. savepoint_exception (throw_savepoint_exception t))
    ∷ (b'D', λ t. invalid_catalog_name)
    ∷ (b'F', λ t. invalid_schema_name)
    ∷ []

unfoldable pub case_3 : Bytes → SqlError
case_3 s = switch rows_3 sql_error (second s) s

-- The inner switch at '4'.
abbrev pub rows_4 : List (ℕ × (Bytes → SqlError))
rows_4 =
    (b'0', λ t. transaction_rollback (throw_transaction_rollback t))
    ∷ (
      b'2',
      λ t. syntax_error_or_access_rule_violation (throw_syntax_error_or_access_rule_violation t),
    )
    ∷ (b'4', λ t. with_check_option_violation)
    ∷ []

unfoldable pub case_4 : Bytes → SqlError
case_4 s = switch rows_4 sql_error (second s) s

-- The inner switch at '5'.
abbrev pub rows_5 : List (ℕ × (Bytes → SqlError))
rows_5 =
    (b'3', λ t. insufficient_resources (throw_insufficient_resources t))
    ∷ (b'4', λ t. program_limit_exceeded (throw_program_limit_exceeded t))
    ∷ (b'5', λ t. object_not_in_prerequisite_state (throw_object_not_in_prerequisite_state t))
    ∷ (b'7', λ t. operator_intervention (throw_operator_intervention t))
    ∷ (b'8', λ t. system_error (throw_system_error t))
    ∷ []

unfoldable pub case_5 : Bytes → SqlError
case_5 s = switch rows_5 sql_error (second s) s

-- The inner switch at '7'.
abbrev pub rows_7 : List (ℕ × (Bytes → SqlError))
rows_7 = (b'2', λ t. snapshot_too_old) ∷ []

unfoldable pub case_7 : Bytes → SqlError
case_7 s = switch rows_7 sql_error (second s) s

-- The inner switch at 'F'.
abbrev pub rows_f : List (ℕ × (Bytes → SqlError))
rows_f = (b'0', λ t. config_file_error (throw_config_file_error t)) ∷ []

unfoldable pub case_f : Bytes → SqlError
case_f s = switch rows_f sql_error (second s) s

-- The inner switch at 'H'.
abbrev pub rows_h : List (ℕ × (Bytes → SqlError))
rows_h = (b'V', λ t. fdw_error (throw_fdw_error t)) ∷ []

unfoldable pub case_h : Bytes → SqlError
case_h s = switch rows_h sql_error (second s) s

-- The inner switch at 'P'.
abbrev pub rows_p : List (ℕ × (Bytes → SqlError))
rows_p = (b'0', λ t. plpgsql_error (throw_plpgsql_error t)) ∷ []

unfoldable pub case_p : Bytes → SqlError
case_p s = switch rows_p sql_error (second s) s

-- The inner switch at 'X'.
abbrev pub rows_x : List (ℕ × (Bytes → SqlError))
rows_x = (b'X', λ t. internal_error (throw_internal_error t)) ∷ []

unfoldable pub case_x : Bytes → SqlError
case_x s = switch rows_x sql_error (second s) s

-- The type of the exception that is thrown for a code.
abbrev pub cases : List (ℕ × (Bytes → SqlError))
cases =
    (b'0', case_0)
    ∷ (b'2', case_2)
    ∷ (b'3', case_3)
    ∷ (b'4', case_4)
    ∷ (b'5', case_5)
    ∷ (b'7', case_7)
    ∷ (b'F', case_f)
    ∷ (b'H', case_h)
    ∷ (b'P', case_p)
    ∷ (b'X', case_x)
    ∷ []

unfoldable pub throw_sqlstate : Bytes → SqlError
throw_sqlstate s = switch cases sql_error (first s) s

-- `throw_sqlstate( PGresult* )`: the field is null where the server sent no code. The exception
-- keeps the code, in the member `sqlstate`.
pub data Thrown : Type 0 where
  runtime_error : Thrown
  sql : SqlError → Bytes → Thrown

unfoldable pub throw_result : Option Bytes → Thrown
throw_result none = runtime_error
throw_result (some sql_state) = sql (throw_sqlstate sql_state) sql_state
