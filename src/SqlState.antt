-- ===== src/SqlState.antt =====
-- SQLSTATE codes and the exceptions that are thrown for them: exception.hpp and
-- src/lib/pq/exception.cpp.
mod Table
pub mod Warning
pub mod NoData
pub mod ConnectionError
pub mod LocatorException
pub mod InvalidGrantor
pub mod DiagnosticsException
pub mod DataException
pub mod IntegrityConstraintViolation
pub mod InvalidTransactionState
pub mod InvalidAuthorizationSpecification
pub mod DependentPrivilegeDescriptorsStillExist
pub mod SqlRoutineException
pub mod ExternalRoutineException
pub mod ExternalRoutineInvocationException
pub mod SavepointException
pub mod TransactionRollback
pub mod SyntaxErrorOrAccessRuleViolation
pub mod InsufficientResources
pub mod ProgramLimitExceeded
pub mod ObjectNotInPrerequisiteState
pub mod OperatorIntervention
pub mod SystemError
pub mod ConfigFileError
pub mod FdwError
pub mod PlpgsqlError
pub mod InternalError
pub mod Dispatch
pub mod Classes
pub mod LowCases
pub mod HighCases
pub mod Laws
pub mod Tests
