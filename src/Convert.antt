-- ===== src/Convert.antt =====
-- The conversions of rows: `get` and `as` of include/tao/pq/row.hpp and include/tao/pq/table_row.hpp
-- with the traits of result_traits.hpp, result_traits_optional.hpp, result_traits_pair.hpp and
-- result_traits_tuple.hpp. The arguments of a tuple's constructor are evaluated in order here.
pub mod Reads
pub mod Rows
pub mod Tables
use taopq.Base.{
  ℕ, zero, suc, ◌+◌, Bool, true, false, List, [], ◌∷◌, Option, none, some, if◌then◌else◌, ◌==◌,
  Bytes, Result, ok, throw, out_of_range, overrun, ◌>>=◌,
}
use taopq.IndexScan.{exclusive_scan}

-- What the traits of a type of one column give: `from` on text, and `null` where the type has it.
pub record Scalar (V : Type 0) : Type 0 where
  pub from : Bytes → Result V
  pub null : Option V

-- The types: scalars, `std::optional`, and `std::tuple` or `std::pair` of two types or more.
mutual
  pub data Desc (V : Type 0) : Type 0 where
    scalar : Scalar V → Desc V
    optional : Desc V → Desc V
    tuple : Descs V → Desc V

  pub data Descs (V : Type 0) : Type 0 where
    two : Desc V → Desc V → Descs V
    type : Desc V → Descs V → Descs V

mutual
  pub data Value (V : Type 0) : Type 0 where
    leaf : V → Value V
    absent : Value V
    present : Value V → Value V
    values : Values V → Value V

  pub data Values (V : Type 0) : Type 0 where
    no_values : Values V
    value : Value V → Values V → Values V

-- `result_traits_size`.
unfoldable mutual
  pub size : {V : Type 0} → Desc V → ℕ
  size (scalar d) = 1
  size (optional t) = size t
  size (tuple ts) = size_all ts

  pub size_all : {V : Type 0} → Descs V → ℕ
  size_all (two t u) = size t + size u
  size_all (type t ts) = size t + size_all ts

unfoldable pub sizes : {V : Type 0} → Descs V → List ℕ
sizes (two t u) = size t ∷ size u ∷ []
sizes (type t ts) = size t ∷ sizes ts

-- The traits of the types that are read from one text: `result_type_direct`.
unfoldable pub direct : {V : Type 0} → Desc V → Option (Scalar (Value V))
direct (scalar d) = some (record {
  from = λ s. d.from s >>= λ v. ok (leaf v);
  null = elim d.null [ none ↦ none | some v ↦ some (leaf v) ];
})
direct (optional t) = elim (direct t) [
  | none ↦ none
  | some d ↦ some (record { from = λ s. d.from s >>= λ v. ok (present v); null = some absent })
]
direct (tuple ts) = none

-- What the conversions use of a row: `row` and `table_row` have it.
pub record RowOps (R V : Type 0) : Type 0 where
  pub columns : R → ℕ
  pub is_null : R → ℕ → Result Bool
  pub slice : R → ℕ → ℕ → Result R
  pub get_direct : R → ℕ → Scalar (Value V) → Result (Value V)

module _ {R V : Type 0} (ops : RowOps R V) where
  -- The loop of `result_traits< std::optional >::from`: whether a column from `column` on is not null.
  unfoldable pub has_value : R → ℕ → ℕ → Result Bool
  has_value r column zero = ok false
  has_value r column (suc left) = do
    null ← ops.is_null r column
    let rest = has_value r (suc column) left
    if null then rest else ok true

  -- `get`: of a direct type, and of a composite one, which is `from` of a slice.
  unfoldable pub get_by :
      Option (Scalar (Value V)) → (R → Result (Value V)) → ℕ → R → ℕ → Result (Value V)
  get_by (some d) from n r column = ops.get_direct r column d
  get_by none from n r column = ops.slice r column n >>= from

  -- `from` of a composite type; a direct type has no such function.
  unfoldable mutual
    pub from_row : Desc V → R → Result (Value V)
    from_row (scalar d) r = throw overrun
    from_row (optional t) r = do
      present_value ← has_value r 0 (ops.columns r)
      let converted = from_row t r >>= λ v. ok (present v)
      if present_value then converted else ok absent
    from_row (tuple ts) r = from_each ts (exclusive_scan (sizes ts)) r >>= λ vs. ok (values vs)

    pub from_each : Descs V → List ℕ → R → Result (Values V)
    from_each (two t u) (m ∷ n ∷ ns) r = do
      v ← get_by (direct t) (from_row t) (size t) r m
      w ← get_by (direct u) (from_row u) (size u) r n
      ok (value v (value w no_values))
    from_each (type t ts) (n ∷ ns) r = do
      v ← get_by (direct t) (from_row t) (size t) r n
      vs ← from_each ts ns r
      ok (value v vs)
    from_each ts ns r = throw overrun

  unfoldable pub get_as : Desc V → R → ℕ → Result (Value V)
  get_as t r column = get_by (direct t) (from_row t) (size t) r column

  unfoldable pub as_type : Desc V → R → Result (Value V)
  as_type t r = if size t == ops.columns r then get_as t r 0 else throw out_of_range
