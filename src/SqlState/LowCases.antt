-- ===== src/SqlState/LowCases.antt =====
-- The inner switches of `throw_sqlstate` for the classes that begin with a digit up to 3.
use taopq.Base.{Bytes, member, ◌≡◌, refl, inl, inr}
use taopq.SqlState.Table.{switch, switch_cases, first, second}
use taopq.SqlState.Warning
use taopq.SqlState.NoData
use taopq.SqlState.ConnectionError
use taopq.SqlState.LocatorException
use taopq.SqlState.InvalidGrantor
use taopq.SqlState.DiagnosticsException
use taopq.SqlState.DataException
use taopq.SqlState.IntegrityConstraintViolation
use taopq.SqlState.InvalidTransactionState
use taopq.SqlState.InvalidAuthorizationSpecification
use taopq.SqlState.DependentPrivilegeDescriptorsStillExist
use taopq.SqlState.SqlRoutineException
use taopq.SqlState.ExternalRoutineException
use taopq.SqlState.ExternalRoutineInvocationException
use taopq.SqlState.SavepointException
use taopq.SqlState.Dispatch.{sql_error, documented, case_0, rows_0, case_2, rows_2, case_3, rows_3}
use taopq.SqlState.Classes.{seconds, is_documented, Belongs, class_Fits}

module _ (s : Bytes) where
  pub case_0-Belongs : first s ≡ b'0' → Belongs (case_0 s) s
  unfolding case_0 is_documented documented seconds switch member
  case_0-Belongs f =
      switch_cases (λ e. Belongs e s) rows_0 sql_error (second s) s
        ((
          (λ n. inr (rw (f, n) refl, inr (rw (f, n) refl))),
          (
            (λ n. inr (
              rw (f, n) refl,
              class_Fits s Warning.code Warning.generic (Warning.throw_warning s) b'0' b'1'
                  (unfold Warning.code in refl) (Warning.throw-code s) f n,
            )),
            (
              (λ n. inr (
                rw (f, n) refl,
                class_Fits s NoData.code NoData.generic (NoData.throw_no_data s) b'0' b'2'
                    (unfold NoData.code in refl) (NoData.throw-code s) f n,
              )),
              (
                (λ n. inr (rw (f, n) refl, inr (rw (f, n) refl))),
                (
                  (λ n. inr (
                    rw (f, n) refl,
                    class_Fits s ConnectionError.code ConnectionError.generic
                        (ConnectionError.throw_connection_error s) b'0' b'8'
                        (unfold ConnectionError.code in refl) (ConnectionError.throw-code s) f n,
                  )),
                  (
                    (λ n. inr (rw (f, n) refl, inr (rw (f, n) refl))),
                    (
                      (λ n. inr (rw (f, n) refl, inr (rw (f, n) refl))),
                      (
                        (λ n. inr (rw (f, n) refl, inr (rw (f, n) refl))),
                        (
                          (λ n. inr (
                            rw (f, n) refl,
                            class_Fits s LocatorException.code LocatorException.generic
                                (LocatorException.throw_locator_exception s) b'0' b'F'
                                (unfold LocatorException.code in refl)
                                (LocatorException.throw-code s) f n,
                          )),
                          (
                            (λ n. inr (
                              rw (f, n) refl,
                              class_Fits s InvalidGrantor.code InvalidGrantor.generic
                                  (InvalidGrantor.throw_invalid_grantor s) b'0' b'L'
                                  (unfold InvalidGrantor.code in refl) (InvalidGrantor.throw-code s)
                                  f n,
                            )),
                            (
                              (λ n. inr (rw (f, n) refl, inr (rw (f, n) refl))),
                              (
                                (λ n. inr (
                                  rw (f, n) refl,
                                  class_Fits s DiagnosticsException.code
                                      DiagnosticsException.generic
                                      (DiagnosticsException.throw_diagnostics_exception s) b'0' b'Z'
                                      (unfold DiagnosticsException.code in refl)
                                      (DiagnosticsException.throw-code s) f n,
                                )),
                                tt,
                              ),
                            ),
                          ),
                        ),
                      ),
                    ),
                  ),
                ),
              ),
            ),
          ),
        ))
        (λ m. inl (refl, rw f m))

  pub case_2-Belongs : first s ≡ b'2' → Belongs (case_2 s) s
  unfolding case_2 is_documented documented seconds switch member
  case_2-Belongs f =
      switch_cases (λ e. Belongs e s) rows_2 sql_error (second s) s
        ((
          (λ n. inr (rw (f, n) refl, inr (rw (f, n) refl))),
          (
            (λ n. inr (rw (f, n) refl, inr (rw (f, n) refl))),
            (
              (λ n. inr (
                rw (f, n) refl,
                class_Fits s DataException.code DataException.generic
                    (DataException.throw_data_exception s) b'2' b'2'
                    (unfold DataException.code in refl) (DataException.throw-code s) f n,
              )),
              (
                (λ n. inr (
                  rw (f, n) refl,
                  class_Fits s IntegrityConstraintViolation.code
                      IntegrityConstraintViolation.generic
                      (IntegrityConstraintViolation.throw_integrity_constraint_violation s) b'2'
                      b'3' (unfold IntegrityConstraintViolation.code in refl)
                      (IntegrityConstraintViolation.throw-code s) f n,
                )),
                (
                  (λ n. inr (rw (f, n) refl, inr (rw (f, n) refl))),
                  (
                    (λ n. inr (
                      rw (f, n) refl,
                      class_Fits s InvalidTransactionState.code InvalidTransactionState.generic
                          (InvalidTransactionState.throw_invalid_transaction_state s) b'2' b'5'
                          (unfold InvalidTransactionState.code in refl)
                          (InvalidTransactionState.throw-code s) f n,
                    )),
                    (
                      (λ n. inr (rw (f, n) refl, inr (rw (f, n) refl))),
                      (
                        (λ n. inr (rw (f, n) refl, inr (rw (f, n) refl))),
                        (
                          (λ n. inr (
                            rw (f, n) refl,
                            class_Fits s InvalidAuthorizationSpecification.code
                                InvalidAuthorizationSpecification.generic
                                (InvalidAuthorizationSpecification.throw_invalid_authorization_specification
                                  s)
                                b'2' b'8' (unfold InvalidAuthorizationSpecification.code in refl)
                                (InvalidAuthorizationSpecification.throw-code s) f n,
                          )),
                          (
                            (λ n. inr (
                              rw (f, n) refl,
                              class_Fits s DependentPrivilegeDescriptorsStillExist.code
                                  DependentPrivilegeDescriptorsStillExist.generic
                                  (DependentPrivilegeDescriptorsStillExist.throw_dependent_privilege_descriptors_still_exist
                                    s)
                                  b'2' b'B'
                                  (unfold DependentPrivilegeDescriptorsStillExist.code in refl)
                                  (DependentPrivilegeDescriptorsStillExist.throw-code s) f n,
                            )),
                            (
                              (λ n. inr (rw (f, n) refl, inr (rw (f, n) refl))),
                              (
                                (λ n. inr (
                                  rw (f, n) refl,
                                  class_Fits s SqlRoutineException.code SqlRoutineException.generic
                                      (SqlRoutineException.throw_sql_routine_exception s) b'2' b'F'
                                      (unfold SqlRoutineException.code in refl)
                                      (SqlRoutineException.throw-code s) f n,
                                )),
                                tt,
                              ),
                            ),
                          ),
                        ),
                      ),
                    ),
                  ),
                ),
              ),
            ),
          ),
        ))
        (λ m. inl (refl, rw f m))

  pub case_3-Belongs : first s ≡ b'3' → Belongs (case_3 s) s
  unfolding case_3 is_documented documented seconds switch member
  case_3-Belongs f =
      switch_cases (λ e. Belongs e s) rows_3 sql_error (second s) s
        ((
          (λ n. inr (rw (f, n) refl, inr (rw (f, n) refl))),
          (
            (λ n. inr (
              rw (f, n) refl,
              class_Fits s ExternalRoutineException.code ExternalRoutineException.generic
                  (ExternalRoutineException.throw_external_routine_exception s) b'3' b'8'
                  (unfold ExternalRoutineException.code in refl)
                  (ExternalRoutineException.throw-code s) f n,
            )),
            (
              (λ n. inr (
                rw (f, n) refl,
                class_Fits s ExternalRoutineInvocationException.code
                    ExternalRoutineInvocationException.generic
                    (ExternalRoutineInvocationException.throw_external_routine_invocation_exception
                      s)
                    b'3' b'9' (unfold ExternalRoutineInvocationException.code in refl)
                    (ExternalRoutineInvocationException.throw-code s) f n,
              )),
              (
                (λ n. inr (
                  rw (f, n) refl,
                  class_Fits s SavepointException.code SavepointException.generic
                      (SavepointException.throw_savepoint_exception s) b'3' b'B'
                      (unfold SavepointException.code in refl) (SavepointException.throw-code s) f
                      n,
                )),
                (
                  (λ n. inr (rw (f, n) refl, inr (rw (f, n) refl))),
                  ((λ n. inr (rw (f, n) refl, inr (rw (f, n) refl))), tt),
                ),
              ),
            ),
          ),
        ))
        (λ m. inl (refl, rw f m))
