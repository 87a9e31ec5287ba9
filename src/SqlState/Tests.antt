-- ===== src/SqlState/Tests.antt =====
-- Runs of `throw_sqlstate`, and its theorems at concrete codes.
use taopq.Base.{codes, ◌≡◌, refl}
use taopq.SqlState.Table.{switch, first, second}
use taopq.SqlState.ConnectionError
use taopq.SqlState.DataException
use taopq.SqlState.Dispatch.{connection_error, data_exception, documented, throw_sqlstate, case_0}
use taopq.SqlState.Classes.{Belongs}
use taopq.SqlState.Laws.{throw_sqlstate-Belongs, throw_sqlstate-documented}

-- The code that a `connection_error` without a code is given.
default_code : throw_sqlstate (codes "08000") ≡ connection_error ConnectionError.generic
unfolding throw_sqlstate switch first second case_0 ConnectionError.throw_connection_error
default_code = refl

throw_sqlstate-Belongs_example : Belongs (throw_sqlstate (codes "22012")) (codes "22012")
throw_sqlstate-Belongs_example = throw_sqlstate-Belongs (codes "22012")

throw_sqlstate-documented_example :
    throw_sqlstate (documented (data_exception DataException.division_by_zero))
    ≡ data_exception DataException.division_by_zero
throw_sqlstate-documented_example =
    throw_sqlstate-documented (data_exception DataException.division_by_zero) (λ e. cc)
