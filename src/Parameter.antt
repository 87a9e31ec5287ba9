-- ===== src/Parameter.antt =====
-- Parameters of a statement: the arrays of include/tao/pq/parameter.hpp, and how the `send` functions of
-- include/tao/pq/transaction_base.hpp and the tuples of parameter_traits_tuple.hpp take the columns
-- of their values apart. A column is what `type`, `value`, `length` and `format` say of it.
pub mod Bind
pub mod Send
pub mod Tests
use taopq.Base.{
  found, ℕ, zero, suc, ◌+◌, Bool, true, false, List, [], ◌∷◌, Option, none, some, if◌then◌else◌,
  ltb, ◌==◌, length, map, get_elem?, Result, ok, throw, length_error, overrun, ◌>>=◌,
}
use taopq.IndexScan.{outer_sequence, inner_sequence}

-- `parameter< Max >`: the number of entries of `m_params` and of the other arrays, and the four
-- arrays of columns as one.
pub record Parameter (C : Type 0) : Type 0 where
  pub max : ℕ
  pub pos : ℕ
  pub size : ℕ
  pub columns : ℕ → Option C

-- An argument of `bind`: a value with its columns, or another list of parameters.
pub data Argument (C : Type 0) : Type 0 where
  value : List C → Argument C
  parameters : Parameter C → Argument C

module _ {C : Type 0} where
  -- An empty list of parameters.
  unfoldable pub fresh : ℕ → Parameter C
  fresh max = record { max = max; pos = 0; size = 0; columns = λ n. none }

  -- The columns are stored from the index `at` on; behind the end of the arrays that is an overrun.
  unfoldable pub fill : Parameter C → ℕ → List C → Result (Parameter C)
  fill p at [] = ok p
  fill p at (c ∷ cs) =
      let rest =
        fill (record p { columns = λ n. if n == at then some c else p.columns n }) (suc at) cs in
      if ltb at p.max then rest else throw overrun

  -- The loop of `bind_impl` for a list, from the column `n` on.
  unfoldable pub copy_columns : Parameter C → Parameter C → ℕ → ℕ → Result (Parameter C)
  copy_columns p q n zero = ok p
  copy_columns p q n (suc left) = elim (q.columns n) [
    | none ↦ throw overrun
    | some c ↦ do stored ← fill p (p.size + n) (c ∷ []); copy_columns stored q (suc n) left
  ]

  -- `m_params[ m_pos++ ] = bptr.release();`
  unfoldable pub keep : Parameter C → Result (Parameter C)
  keep p = if ltb p.pos p.max then ok (record p { pos = suc p.pos }) else throw overrun

  unfoldable pub bind_impl : Parameter C → Argument C → Result (Parameter C)
  bind_impl p (value cs) = if ltb p.max (p.size + length cs) then throw length_error else (do
    filled ← fill p p.size cs
    kept ← keep filled
    ok (record kept { size = kept.size + length cs }))
  bind_impl p (parameters q) = if ltb p.max (p.size + q.size) then throw length_error else (do
    copied ← copy_columns p q 0 q.size
    ok (record copied { size = copied.size + q.size }))

  -- A `bind` that throws leaves what it bound before; `more` binds the other arguments.
  unfoldable pub after_bind :
      (Parameter C → Parameter C × Result (Unit {0}))
      → Parameter C
      → Result (Parameter C)
      → Parameter C × Result (Unit {0})
  after_bind more p (ok q) = more q
  after_bind more p (throw e) = (p, throw e)

  unfoldable pub bind : Parameter C → List (Argument C) → Parameter C × Result (Unit {0})
  unfolding after_bind
  bind p [] = (p, ok tt)
  bind p (a ∷ args) = after_bind (λ q. bind q args) p (bind_impl p a)

  unfoldable pub reset : Parameter C → List (Argument C) → Parameter C × Result (Unit {0})
  reset p args = bind (record p { pos = 0; size = 0 }) args

  -- `parameter_size`.
  unfoldable pub parameter_size : List (Argument C) → ℕ
  parameter_size [] = 0
  parameter_size (value cs ∷ args) = length cs + parameter_size args
  parameter_size (parameters q ∷ args) = q.max + parameter_size args

  -- `std::get< Os >( tuple ).template value< Is >()` for each column.
  unfoldable pub picked : List (List C) → List ℕ → List ℕ → Result (List C)
  picked ts [] is = ok []
  picked ts (o ∷ os) [] = ok []
  picked ts (o ∷ os) (i ∷ is) = do
    t ← found (get_elem? ts o)
    c ← found (get_elem? t i)
    cs ← picked ts os is
    ok (c ∷ cs)

  -- `send_traits` with `send_indexed`; a tuple's traits give its columns in the same way.
  unfoldable pub send_indexed : List (List C) → Result (List C)
  send_indexed ts = picked ts (outer_sequence (map length ts)) (inner_sequence (map length ts))

  -- `send` where an argument is a list of parameters: what the arrays hold.
  unfoldable pub send_bound : List (Argument C) → Parameter C × Result (Unit {0})
  send_bound args = bind (fresh (parameter_size args)) args
