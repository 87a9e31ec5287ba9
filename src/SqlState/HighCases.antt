-- ===== src/SqlState/HighCases.antt =====
-- The inner switches of `throw_sqlstate` for the other classes.
use taopq.Base.{Bytes, member, ◌≡◌, refl, inl, inr}
use taopq.SqlState.Table.{switch, switch_cases, first, second}
use taopq.SqlState.TransactionRollback
use taopq.SqlState.SyntaxErrorOrAccessRuleViolation
use taopq.SqlState.InsufficientResources
use taopq.SqlState.ProgramLimitExceeded
use taopq.SqlState.ObjectNotInPrerequisiteState
use taopq.SqlState.OperatorIntervention
use taopq.SqlState.SystemError
use taopq.SqlState.ConfigFileError
use taopq.SqlState.FdwError
use taopq.SqlState.PlpgsqlError
use taopq.SqlState.InternalError
use taopq.SqlState.Dispatch.{
  sql_error, documented, case_4, rows_4, case_5, rows_5, case_7, rows_7, case_f, rows_f, case_h,
  rows_h, case_p, rows_p, case_x, rows_x,
}
use taopq.SqlState.Classes.{seconds, is_documented, Belongs, class_Fits}

module _ (s : Bytes) where
  pub case_4-Belongs : first s ≡ b'4' → Belongs (case_4 s) s
  unfolding case_4 is_documented documented seconds switch member
  case_4-Belongs f =
      switch_cases (λ e. Belongs e s) rows_4 sql_error (second s) s
        ((
          (λ n. inr (
            rw (f, n) refl,
            class_Fits s TransactionRollback.code TransactionRollback.generic
                (TransactionRollback.throw_transaction_rollback s) b'4' b'0'
                (unfold TransactionRollback.code in refl) (TransactionRollback.throw-code s) f n,
          )),
          (
            (λ n. inr (
              rw (f, n) refl,
              class_Fits s SyntaxErrorOrAccessRuleViolation.code
                  SyntaxErrorOrAccessRuleViolation.generic
                  (SyntaxErrorOrAccessRuleViolation.throw_syntax_error_or_access_rule_violation s)
                  b'4' b'2' (unfold SyntaxErrorOrAccessRuleViolation.code in refl)
                  (SyntaxErrorOrAccessRuleViolation.throw-code s) f n,
            )),
            ((λ n. inr (rw (f, n) refl, inr (rw (f, n) refl))), tt),
          ),
        ))
        (λ m. inl (refl, rw f m))

  pub case_5-Belongs : first s ≡ b'5' → Belongs (case_5 s) s
  unfolding case_5 is_documented documented seconds switch member
  case_5-Belongs f =
      switch_cases (λ e. Belongs e s) rows_5 sql_error (second s) s
        ((
          (λ n. inr (
            rw (f, n) refl,
            class_Fits s InsufficientResources.code InsufficientResources.generic
                (InsufficientResources.throw_insufficient_resources s) b'5' b'3'
                (unfold InsufficientResources.code in refl) (InsufficientResources.throw-code s) f
                n,
          )),
          (
            (λ n. inr (
              rw (f, n) refl,
              class_Fits s ProgramLimitExceeded.code ProgramLimitExceeded.generic
                  (ProgramLimitExceeded.throw_program_limit_exceeded s) b'5' b'4'
                  (unfold ProgramLimitExceeded.code in refl) (ProgramLimitExceeded.throw-code s) f
                  n,
            )),
            (
              (λ n. inr (
                rw (f, n) refl,
                class_Fits s ObjectNotInPrerequisiteState.code ObjectNotInPrerequisiteState.generic
                    (ObjectNotInPrerequisiteState.throw_object_not_in_prerequisite_state s) b'5'
                    b'5' (unfold ObjectNotInPrerequisiteState.code in refl)
                    (ObjectNotInPrerequisiteState.throw-code s) f n,
              )),
              (
                (λ n. inr (
                  rw (f, n) refl,
                  class_Fits s OperatorIntervention.code OperatorIntervention.generic
                      (OperatorIntervention.throw_operator_intervention s) b'5' b'7'
                      (unfold OperatorIntervention.code in refl) (OperatorIntervention.throw-code s)
                      f n,
                )),
                (
                  (λ n. inr (
                    rw (f, n) refl,
                    class_Fits s SystemError.code SystemError.generic
                        (SystemError.throw_system_error s) b'5' b'8'
                        (unfold SystemError.code in refl) (SystemError.throw-code s) f n,
                  )),
                  tt,
                ),
              ),
            ),
          ),
        ))
        (λ m. inl (refl, rw f m))

  pub case_7-Belongs : first s ≡ b'7' → Belongs (case_7 s) s
  unfolding case_7 is_documented documented seconds switch member
  case_7-Belongs f =
      switch_cases (λ e. Belongs e s) rows_7 sql_error (second s) s
        (((λ n. inr (rw (f, n) refl, inr (rw (f, n) refl))), tt)) (λ m. inl (refl, rw f m))

  pub case_f-Belongs : first s ≡ b'F' → Belongs (case_f s) s
  unfolding case_f is_documented documented seconds switch member
  case_f-Belongs f =
      switch_cases (λ e. Belongs e s) rows_f sql_error (second s) s
        ((
          (λ n. inr (
            rw (f, n) refl,
            class_Fits s ConfigFileError.code ConfigFileError.generic
                (ConfigFileError.throw_config_file_error s) b'F' b'0'
                (unfold ConfigFileError.code in refl) (ConfigFileError.throw-code s) f n,
          )),
          tt,
        ))
        (λ m. inl (refl, rw f m))

  pub case_h-Belongs : first s ≡ b'H' → Belongs (case_h s) s
  unfolding case_h is_documented documented seconds switch member
  case_h-Belongs f =
      switch_cases (λ e. Belongs e s) rows_h sql_error (second s) s
        ((
          (λ n. inr (
            rw (f, n) refl,
            class_Fits s FdwError.code FdwError.generic (FdwError.throw_fdw_error s) b'H' b'V'
                (unfold FdwError.code in refl) (FdwError.throw-code s) f n,
          )),
          tt,
        ))
        (λ m. inl (refl, rw f m))

  pub case_p-Belongs : first s ≡ b'P' → Belongs (case_p s) s
  unfolding case_p is_documented documented seconds switch member
  case_p-Belongs f =
      switch_cases (λ e. Belongs e s) rows_p sql_error (second s) s
        ((
          (λ n. inr (
            rw (f, n) refl,
            class_Fits s PlpgsqlError.code PlpgsqlError.generic (PlpgsqlError.throw_plpgsql_error s)
                b'P' b'0' (unfold PlpgsqlError.code in refl) (PlpgsqlError.throw-code s) f n,
          )),
          tt,
        ))
        (λ m. inl (refl, rw f m))

  pub case_x-Belongs : first s ≡ b'X' → Belongs (case_x s) s
  unfolding case_x is_documented documented seconds switch member
  case_x-Belongs f =
      switch_cases (λ e. Belongs e s) rows_x sql_error (second s) s
        ((
          (λ n. inr (
            rw (f, n) refl,
            class_Fits s InternalError.code InternalError.generic
                (InternalError.throw_internal_error s) b'X' b'X' (unfold InternalError.code in refl)
                (InternalError.throw-code s) f n,
          )),
          tt,
        ))
        (λ m. inl (refl, rw f m))
