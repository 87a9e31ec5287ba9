-- ===== src/SqlState/Laws.antt =====
-- What `throw_sqlstate` throws, for every code.
use taopq.Base.{Bytes, member, ◌≡◌, ◌≢◌, refl, inl, ap}
use taopq.SqlState.Table.{switch, switch_cases, first, second}
use taopq.SqlState.Warning
use taopq.SqlState.NoData
use taopq.SqlState.ConnectionError
use taopq.SqlState.LocatorException
use taopq.SqlState.InvalidGrantor
use taopq.SqlState.DiagnosticsException
use taopq.SqlState.DataException
use taopq.SqlState.IntegrityConstraintViolation
use taopq.SqlState.InvalidTransactionState
use taopq.SqlState.InvalidAuthorizationSpecification
use taopq.SqlState.DependentPrivilegeDescriptorsStillExist
use taopq.SqlState.SqlRoutineException
use taopq.SqlState.ExternalRoutineException
use taopq.SqlState.ExternalRoutineInvocationException
use taopq.SqlState.SavepointException
use taopq.SqlState.TransactionRollback
use taopq.SqlState.SyntaxErrorOrAccessRuleViolation
use taopq.SqlState.InsufficientResources
use taopq.SqlState.ProgramLimitExceeded
use taopq.SqlState.ObjectNotInPrerequisiteState
use taopq.SqlState.OperatorIntervention
use taopq.SqlState.SystemError
use taopq.SqlState.ConfigFileError
use taopq.SqlState.FdwError
use taopq.SqlState.PlpgsqlError
use taopq.SqlState.InternalError
use taopq.SqlState.Dispatch.{
  SqlError, sql_error, success, warning, no_data, sql_statement_not_yet_complete, connection_error,
  triggered_action_exception, feature_not_supported, invalid_transaction_initiation,
  locator_exception, invalid_grantor, invalid_role_specification, diagnostics_exception,
  case_not_found, cardinality_violation, data_exception, integrity_constraint_violation,
  invalid_cursor_state, invalid_transaction_state, invalid_sql_statement_name,
  triggered_data_change_violation, invalid_authorization_specification,
  dependent_privilege_descriptors_still_exist, invalid_transaction_termination,
  sql_routine_exception, invalid_cursor_name, external_routine_exception,
  external_routine_invocation_exception, savepoint_exception, invalid_catalog_name,
  invalid_schema_name, transaction_rollback, syntax_error_or_access_rule_violation,
  with_check_option_violation, insufficient_resources, program_limit_exceeded,
  object_not_in_prerequisite_state, operator_intervention, system_error, snapshot_too_old,
  config_file_error, fdw_error, plpgsql_error, internal_error, documented, case_0, case_2, case_3,
  case_4, case_5, case_7, case_f, case_h, case_p, case_x, cases, throw_sqlstate,
}
use taopq.SqlState.Classes.{seconds_none, is_documented, Belongs}
use taopq.SqlState.LowCases.{case_0-Belongs, case_2-Belongs, case_3-Belongs}
use taopq.SqlState.HighCases.{
  case_4-Belongs, case_5-Belongs, case_7-Belongs, case_f-Belongs, case_h-Belongs, case_p-Belongs,
  case_x-Belongs,
}

-- For every code: a code of a class that exception.hpp does not document throws `sql_error`, any
-- other throws a type whose documented code is that code or the class that it is in.
pub throw_sqlstate-Belongs : (s : Bytes) → Belongs (throw_sqlstate s) s
unfolding throw_sqlstate is_documented
throw_sqlstate-Belongs s =
    switch_cases (λ e. Belongs e s) cases sql_error (first s) s
      ((
        case_0-Belongs s,
        (
          case_2-Belongs s,
          (
            case_3-Belongs s,
            (
              case_4-Belongs s,
              (
                case_5-Belongs s,
                (
                  case_7-Belongs s,
                  (
                    case_f-Belongs s,
                    (case_h-Belongs s, (case_p-Belongs s, (case_x-Belongs s, tt))),
                  ),
                ),
              ),
            ),
          ),
        ),
      ))
      (λ m. inl (refl, rw (seconds_none (first s) m) (unfold member in refl)))

-- Each type but `sql_error` is thrown for the code that exception.hpp documents for it.
pub throw_sqlstate-documented : (e : SqlError) → e ≢ sql_error → throw_sqlstate (documented e) ≡ e
unfolding throw_sqlstate documented switch first second case_0 case_2 case_3 case_4 case_5 case_7
    case_f case_h case_p case_x
throw_sqlstate-documented sql_error h = absurd (h refl)
throw_sqlstate-documented success h = refl
throw_sqlstate-documented (warning e) h =
    rw ((Warning.code-class e).0, (Warning.code-class e).1) (ap warning (Warning.throw_code_lem e))
throw_sqlstate-documented (no_data e) h =
    rw ((NoData.code-class e).0, (NoData.code-class e).1) (ap no_data (NoData.throw_code_lem e))
throw_sqlstate-documented sql_statement_not_yet_complete h = refl
throw_sqlstate-documented (connection_error e) h =
    rw ((ConnectionError.code-class e).0, (ConnectionError.code-class e).1)
      (ap connection_error (ConnectionError.throw_code_lem e))
throw_sqlstate-documented triggered_action_exception h = refl
throw_sqlstate-documented feature_not_supported h = refl
throw_sqlstate-documented invalid_transaction_initiation h = refl
throw_sqlstate-documented (locator_exception e) h =
    rw ((LocatorException.code-class e).0, (LocatorException.code-class e).1)
      (ap locator_exception (LocatorException.throw_code_lem e))
throw_sqlstate-documented (invalid_grantor e) h =
    rw ((InvalidGrantor.code-class e).0, (InvalidGrantor.code-class e).1)
      (ap invalid_grantor (InvalidGrantor.throw_code_lem e))
throw_sqlstate-documented invalid_role_specification h = refl
throw_sqlstate-documented (diagnostics_exception e) h =
    rw ((DiagnosticsException.code-class e).0, (DiagnosticsException.code-class e).1)
      (ap diagnostics_exception (DiagnosticsException.throw_code_lem e))
throw_sqlstate-documented case_not_found h = refl
throw_sqlstate-documented cardinality_violation h = refl
throw_sqlstate-documented (data_exception e) h =
    rw ((DataException.code-class e).0, (DataException.code-class e).1)
      (ap data_exception (DataException.throw_code_lem e))
throw_sqlstate-documented (integrity_constraint_violation e) h =
    rw
      ((IntegrityConstraintViolation.code-class e).0, (IntegrityConstraintViolation.code-class e).1)
      (ap integrity_constraint_violation (IntegrityConstraintViolation.throw_code_lem e))
throw_sqlstate-documented invalid_cursor_state h = refl
throw_sqlstate-documented (invalid_transaction_state e) h =
    rw ((InvalidTransactionState.code-class e).0, (InvalidTransactionState.code-class e).1)
      (ap invalid_transaction_state (InvalidTransactionState.throw_code_lem e))
throw_sqlstate-documented invalid_sql_statement_name h = refl
throw_sqlstate-documented triggered_data_change_violation h = refl
throw_sqlstate-documented (invalid_authorization_specification e) h =
    rw
      (
        (InvalidAuthorizationSpecification.code-class e).0,
        (InvalidAuthorizationSpecification.code-class e).1,
      )
      (ap invalid_authorization_specification (InvalidAuthorizationSpecification.throw_code_lem e))
throw_sqlstate-documented (dependent_privilege_descriptors_still_exist e) h =
    rw
      (
        (DependentPrivilegeDescriptorsStillExist.code-class e).0,
        (DependentPrivilegeDescriptorsStillExist.code-class e).1,
      )
      (ap dependent_privilege_descriptors_still_exist
        (DependentPrivilegeDescriptorsStillExist.throw_code_lem e))
throw_sqlstate-documented invalid_transaction_termination h = refl
throw_sqlstate-documented (sql_routine_exception e) h =
    rw ((SqlRoutineException.code-class e).0, (SqlRoutineException.code-class e).1)
      (ap sql_routine_exception (SqlRoutineException.throw_code_lem e))
throw_sqlstate-documented invalid_cursor_name h = refl
throw_sqlstate-documented (external_routine_exception e) h =
    rw ((ExternalRoutineException.code-class e).0, (ExternalRoutineException.code-class e).1)
      (ap external_routine_exception (ExternalRoutineException.throw_code_lem e))
throw_sqlstate-documented (external_routine_invocation_exception e) h =
    rw
      (
        (ExternalRoutineInvocationException.code-class e).0,
        (ExternalRoutineInvocationException.code-class e).1,
      )
      (ap external_routine_invocation_exception
        (ExternalRoutineInvocationException.throw_code_lem e))
throw_sqlstate-documented (savepoint_exception e) h =
    rw ((SavepointException.code-class e).0, (SavepointException.code-class e).1)
      (ap savepoint_exception (SavepointException.throw_code_lem e))
throw_sqlstate-documented invalid_catalog_name h = refl
throw_sqlstate-documented invalid_schema_name h = refl
throw_sqlstate-documented (transaction_rollback e) h =
    rw ((TransactionRollback.code-class e).0, (TransactionRollback.code-class e).1)
      (ap transaction_rollback (TransactionRollback.throw_code_lem e))
throw_sqlstate-documented (syntax_error_or_access_rule_violation e) h =
    rw
      (
        (SyntaxErrorOrAccessRuleViolation.code-class e).0,
        (SyntaxErrorOrAccessRuleViolation.code-class e).1,
      )
      (ap syntax_error_or_access_rule_violation (SyntaxErrorOrAccessRuleViolation.throw_code_lem e))
throw_sqlstate-documented with_check_option_violation h = refl
throw_sqlstate-documented (insufficient_resources e) h =
    rw ((InsufficientResources.code-class e).0, (InsufficientResources.code-class e).1)
      (ap insufficient_resources (InsufficientResources.throw_code_lem e))
throw_sqlstate-documented (program_limit_exceeded e) h =
    rw ((ProgramLimitExceeded.code-class e).0, (ProgramLimitExceeded.code-class e).1)
      (ap program_limit_exceeded (ProgramLimitExceeded.throw_code_lem e))
throw_sqlstate-documented (object_not_in_prerequisite_state e) h =
    rw
      ((ObjectNotInPrerequisiteState.code-class e).0, (ObjectNotInPrerequisiteState.code-class e).1)
      (ap object_not_in_prerequisite_state (ObjectNotInPrerequisiteState.throw_code_lem e))
throw_sqlstate-documented (operator_intervention e) h =
    rw ((OperatorIntervention.code-class e).0, (OperatorIntervention.code-class e).1)
      (ap operator_intervention (OperatorIntervention.throw_code_lem e))
throw_sqlstate-documented (system_error e) h =
    rw ((SystemError.code-class e).0, (SystemError.code-class e).1)
      (ap system_error (SystemError.throw_code_lem e))
throw_sqlstate-documented snapshot_too_old h = refl
throw_sqlstate-documented (config_file_error e) h =
    rw ((ConfigFileError.code-class e).0, (ConfigFileError.code-class e).1)
      (ap config_file_error (ConfigFileError.throw_code_lem e))
throw_sqlstate-documented (fdw_error e) h =
    rw ((FdwError.code-class e).0, (FdwError.code-class e).1)
      (ap fdw_error (FdwError.throw_code_lem e))
throw_sqlstate-documented (plpgsql_error e) h =
    rw ((PlpgsqlError.code-class e).0, (PlpgsqlError.code-class e).1)
      (ap plpgsql_error (PlpgsqlError.throw_code_lem e))
throw_sqlstate-documented (internal_error e) h =
    rw ((InternalError.code-class e).0, (InternalError.code-class e).1)
      (ap internal_error (InternalError.throw_code_lem e))
