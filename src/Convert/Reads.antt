-- ===== src/Convert/Reads.antt =====
-- What a type reads from the cells of a row, and what the conversions ask of a row.
use taopq.Base.{
  ℕ, ◌+◌, ◌≤◌, ◌<◌, ◌≡◌, refl, ap, Bool, true, false, ◌&&◌, List, [], ◌∷◌, Option, none, some,
  if◌then◌else◌, take, drop, length, get_elem?, Bytes, Error, Result, ok, throw, ◌>>=◌, arith,
}
use taopq.Convert.{
  Scalar, Desc, scalar, optional, tuple, Descs, two, type, Value, leaf, absent, present, values,
  Values, no_values, value, size, size_all, direct, RowOps,
}

-- A cell is text, or null.
abbrev pub Cells : Type 0
Cells = List (Option Bytes)

unfoldable pub is_none : Option Bytes → Bool
is_none none = true
is_none (some s) = false

unfoldable pub all_null : Cells → Bool
all_null [] = true
all_null (c ∷ cs) = is_none c && all_null cs

-- A null where the type has none is a failure.
unfoldable pub read_cell : {V : Type 0} → Error → Scalar V → Option Bytes → Result V
read_cell failure d none = elim d.null [ none ↦ throw failure | some v ↦ ok v ]
read_cell failure d (some s) = d.from s

unfoldable pub read_scalar : {V : Type 0} → Error → Scalar V → Cells → Result (Value V)
read_scalar failure d [] = throw failure
read_scalar failure d (c ∷ cs) = read_cell failure d c >>= λ v. ok (leaf v)

-- What a type reads from as many cells as its size: an optional is absent where all cells are null,
-- and a tuple takes the cells apart, as many for each type as its size.
unfoldable mutual
  pub read : {V : Type 0} → Error → Desc V → Cells → Result (Value V)
  read failure (scalar d) cs = read_scalar failure d cs
  read failure (optional t) cs =
      let some_value = read failure t cs >>= λ v. ok (present v) in
      if all_null cs then ok absent else some_value
  read failure (tuple ts) cs = read_each failure ts cs >>= λ vs. ok (values vs)

  pub read_each : {V : Type 0} → Error → Descs V → Cells → Result (Values V)
  read_each failure (two t u) cs = do
    v ← read failure t (take (size t) cs)
    w ← read failure u (take (size u) (drop (size t) cs))
    ok (value v (value w no_values))
  read_each failure (type t ts) cs = do
    v ← read failure t (take (size t) cs)
    vs ← read_each failure ts (drop (size t) cs)
    ok (value v vs)

-- The cells that a valid row shows, and that its functions answer with them.
pub record Laws {R V : Type 0} (ops : RowOps R V) (failure : Error) (IsValid : R → Type 0)
    (cells : R → Cells) : Type 0 where
  pub columns : (r : R) → IsValid r → ops.columns r ≡ length (cells r)
  pub is_null :
      (r : R) (n : ℕ) (c : Option Bytes)
      → IsValid r
      → get_elem? (cells r) n ≡ some c
      → ops.is_null r n ≡ ok (is_none c)
  pub get_direct :
      (r : R) (n : ℕ) (c : Option Bytes) (d : Scalar (Value V))
      → IsValid r
      → get_elem? (cells r) n ≡ some c
      → ops.get_direct r n d ≡ read_cell failure d c
  pub slice :
      (r : R) (offset n : ℕ)
      → IsValid r
      → 0 < n
      → offset + n ≤ length (cells r)
      → (s : R) × (ops.slice r offset n ≡ ok s)
        × IsValid s
        × (cells s ≡ take n (drop offset (cells r)))

mutual
  unfolding size

  pub size_pos : {V : Type 0} (t : Desc V) → 0 < size t
  size_pos (scalar d) = omega arith
  size_pos (optional t) = size_pos t
  size_pos (tuple ts) = size_all_pos ts

  pub size_all_pos : {V : Type 0} (ts : Descs V) → 0 < size_all ts
  size_all_pos (two t u) = omega (arith, size_pos t)
  size_all_pos (type t ts) = omega (arith, size_pos t)

-- A direct type has one column, and reads its cell.
abbrev pub IsDirect : {V : Type 0} → Error → Desc V → Option (Scalar (Value V)) → Type 0
IsDirect failure t none = Unit {0}
IsDirect failure t (some d) =
    (size t ≡ 1) × ((c : Option Bytes) → read_cell failure d c ≡ read failure t (c ∷ []))

null_leaf :
    {V : Type 0} (failure : Error) (o : Option V)
    → (elim (elim o as (λ _. Option (Value V)) [ none ↦ none | some v ↦ some (leaf v) ])
        as (λ _. Result (Value V)) [ none ↦ throw failure | some v ↦ ok v ])
      ≡ ((elim o as (λ _. Result V) [ none ↦ throw failure | some v ↦ ok v ]) >>= λ v. ok (leaf v))
null_leaf failure none = refl
null_leaf failure (some v) = refl

scalar_cell :
    {V : Type 0} (failure : Error) (d : Scalar V) (c : Option Bytes)
    → read_cell failure
        (record {
          from = λ s. d.from s >>= λ v. ok (leaf v);
          null = elim d.null [ none ↦ none | some v ↦ some (leaf v) ];
        })
        c
      ≡ read failure (scalar d) (c ∷ [])
unfolding read read_scalar read_cell
scalar_cell failure d none = null_leaf failure d.null
scalar_cell failure d (some s) = refl

optional_cell :
    {V : Type 0} (failure : Error) (t : Desc V) (d : Scalar (Value V)) (c : Option Bytes)
    → read_cell failure d c ≡ read failure t (c ∷ [])
    → read_cell failure
        (record { from = λ s. d.from s >>= λ v. ok (present v); null = some absent })
        c
      ≡ read failure (optional t) (c ∷ [])
unfolding read_cell read all_null is_none
optional_cell failure t d none h = refl
optional_cell failure t d (some s) h = ap (λ x. x >>= λ v. ok (present v)) h

optional-IsDirect :
    {V : Type 0} (failure : Error) (t : Desc V) (o : Option (Scalar (Value V)))
    → IsDirect failure t o
    → IsDirect failure (optional t) (elim o [
      | none ↦ none
      | some d ↦ some (record { from = λ s. d.from s >>= λ v. ok (present v); null = some absent })
    ])
unfolding size
optional-IsDirect failure t none h = tt
optional-IsDirect failure t (some d) (e, h) = (e, λ c. optional_cell failure t d c (h c))

pub direct-IsDirect : {V : Type 0} (failure : Error) (t : Desc V) → IsDirect failure t (direct t)
unfolding direct size
direct-IsDirect failure (scalar d) = (refl, scalar_cell failure d)
direct-IsDirect failure (optional t) =
    optional-IsDirect failure t (direct t) (direct-IsDirect failure t)
direct-IsDirect failure (tuple ts) = tt
