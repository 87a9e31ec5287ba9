-- ===== src/Parameter/Tests.antt =====
-- Lists of parameters of numbers, and the theorems at them.
use taopq.Base.{ℕ, ◌≡◌, refl, [], ◌∷◌, List, ok, throw, length_error, arith}
use taopq.Parameter.{
  Parameter, Argument, value, parameters, fresh, bind, after_bind, bind_impl, fill, keep,
  send_bound, send_indexed,
}
use taopq.Parameter.Bind.{Holds, ShowsAll, bound, bind-bound}
use taopq.Parameter.Send.{concat, fresh-Holds, send_indexed-concat, send_bound-Holds}

abbrev start : Parameter ℕ
start = fresh 3

too_many : (bind start (value (7 ∷ 8 ∷ []) ∷ value (9 ∷ 10 ∷ []) ∷ [])).1 ≡ throw length_error
unfolding fresh bind after_bind bind_impl fill keep
too_many = refl

abbrev arguments : List (Argument ℕ)
arguments = value (7 ∷ 8 ∷ []) ∷ parameters start ∷ value (9 ∷ []) ∷ []

abbrev columns : List (List ℕ)
columns = (7 ∷ 8 ∷ []) ∷ [] ∷ (9 ∷ []) ∷ []

arguments-ShowsAll : ShowsAll arguments columns
arguments-ShowsAll = ((refl, omega arith), (fresh-Holds 3, ((refl, omega arith), tt)))

bind-bound_example :
    Holds (bind start arguments).0 (bound 3 [] columns).0
    × ((bind start arguments).1 ≡ (bound 3 [] columns).1)
unfolding fresh
bind-bound_example = bind-bound start arguments [] columns (fresh-Holds 3) arguments-ShowsAll

send_indexed-concat_example : send_indexed columns ≡ ok (concat columns)
send_indexed-concat_example = send_indexed-concat columns

send_bound-Holds_example :
    Holds (send_bound arguments).0 (concat columns) × ((send_bound arguments).1 ≡ ok tt)
send_bound-Holds_example = send_bound-Holds arguments columns arguments-ShowsAll
