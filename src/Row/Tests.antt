-- ===== src/Row/Tests.antt =====
-- A result of one row with the columns a, b and a, and the theorems on rows at it.
use taopq.Base.{
  aborted, ℕ, zero, suc, ◌+◌, ◌-◌, ◌≤◌, ◌<◌, ◌≡◌, ◌⊎◌, inl, inr, refl, false, Bytes, codes,
  bytes_eq, if◌then◌else◌, ok, throw, out_of_range, arith, Option, none, some, ap, head_or, ◌>>=◌,
  invalid_argument, runtime_error, List, [], ◌∷◌, ◌++◌, length, ◌==◌,
}
use taopq.QueryResult.{PgResult, IsFirst, QueryResult, has_columns, of_pgresult}
use taopq.QueryResult
use taopq.Row.{
  Row, size_mod, row_at, slice, get, at, ensure_column, field_get, field_is_null, field_index,
  is_null, index,
}
use taopq.Row.Slices.{IsValid, slice-get, slice_overflow}
use taopq.Row.Fields.{field_get-at_whole, field_get-at_slice}
use taopq.Row.Names.{Finds, index_lem}
use taopq.Row.Typed.{row_ops, as_one, as_optional, as_container}
use taopq.Row.Cells.{IsShown, cells, as_type-row}
use taopq.Row.Containers.{table, read_one, read_optional, conversions-table}
use taopq.Convert.{Desc, scalar, optional, tuple, two, Value, size, as_type}
use taopq.Convert.Reads.{read}
use taopq.Convert.Tables.{read_all}

abbrev sample_fname : ℕ → Bytes
sample_fname zero = codes "a"
sample_fname (suc zero) = codes "b"
sample_fname (suc (suc i)) = codes "a"

abbrev sample_value : ℕ → Bytes
sample_value zero = codes "1"
sample_value (suc zero) = codes "2"
sample_value (suc (suc i)) = codes "3"

abbrev sample_fnumber : Bytes → Option ℕ
sample_fnumber s =
    if bytes_eq s (codes "a") then some 0 else if bytes_eq s (codes "b") then some 1 else none

abbrev sample : PgResult
sample = record {
  nfields = 3;
  ntuples = 1;
  fname = sample_fname;
  fnumber = sample_fnumber;
  getisnull = λ row column. false;
  getvalue = λ row column. sample_value column;
}

fnumber_cases : (s : Bytes) (n : ℕ) → sample_fnumber s ≡ some n → (n ≡ 0) ⊎ (n ≡ 1)
fnumber_cases s n e = ground arith

b_first : (i : ℕ) → sample_fname i ≡ codes "b" → 1 ≤ i
b_first zero e = absurd (omega (arith, ap (head_or 0) e))
b_first (suc i) e = omega arith

sample_first : (n i : ℕ) → (n ≡ 0) ⊎ (n ≡ 1) → sample_fname i ≡ sample_fname n → n ≤ i
sample_first n i (inl e) h = omega arith
sample_first n i (inr e) h = rw e (b_first i (rw e at h))

sample_within : (n : ℕ) → (n ≡ 0) ⊎ (n ≡ 1) → n < 3
sample_within n h = omega arith

sample-IsFirst : IsFirst sample
sample-IsFirst = record {
  within = λ s n e. sample_within n (fnumber_cases s n e);
  first = λ s n i e h. sample_first n i (fnumber_cases s n e) h;
}

abbrev whole : Row
whole = record {
  result = record { pgresult = sample; columns = 3; rows = 1 };
  row = 0;
  offset = 0;
  columns = 3;
}

-- The columns b and a.
abbrev part : Row
part = record whole { offset = 1; columns = 2 }

whole-IsValid : IsValid whole
whole-IsValid = omega arith

part-IsValid : IsValid part
part-IsValid = omega arith

whole_lem : row_at (of_pgresult sample) 0 ≡ whole
unfolding row_at of_pgresult
whole_lem = refl

part_lem : slice whole 1 2 ≡ ok part
unfolding slice
part_lem = refl

-- The field of the first column of the slice reads the second, the field of the second is refused.
first_field : (at part 0 >>= field_get) ≡ ok (codes "3")
unfolding at field_get get QueryResult.get QueryResult.is_null has_columns
first_field = refl

second_field : (at part 1 >>= field_get) ≡ throw out_of_range
unfolding at field_get get
second_field = refl

slice-get_example :
    ((◌≡◌ {A = ℕ} 2 0) × (slice whole 1 2 ≡ throw invalid_argument))
    ⊎ ((0 < 2) × (3 < 1 + 2) × (slice whole 1 2 ≡ throw out_of_range))
    ⊎ ((0 < 2)
        × (1 + 2 ≤ 3)
        × (s : Row) × (slice whole 1 2 ≡ ok s)
        × IsValid s
        × ((c : ℕ) → c < 2 → get s c ≡ get whole (1 + c))
        × ((c : ℕ) → 2 ≤ c → get s c ≡ throw out_of_range))
slice-get_example = slice-get whole 1 2 whole-IsValid (omega arith)

slice_overflow_example :
    (s : Row) × (slice part (size_mod - 1) 2 ≡ ok s)
    × ¬ ((1 ≤ s.offset) × (s.offset + s.columns ≤ 1 + 2))
slice_overflow_example =
    slice_overflow part (size_mod - 1) 2 part-IsValid (omega arith) (omega arith) (omega arith)
      (omega arith) (omega arith)

field_get-at_whole_example :
    ((at whole 1 >>= field_get) ≡ get whole 1)
    × ((at whole 1 >>= field_is_null) ≡ is_null whole 1)
    × ((at whole 1 >>= λ f. ok (field_index f)) ≡ ensure_column whole 1 (ok 1))
field_get-at_whole_example = field_get-at_whole whole 1 whole-IsValid refl

field_get-at_slice_example :
    ((1 + 1 < 2) × ((at part 1 >>= field_get) ≡ get part (1 + 1)))
    ⊎ ((2 ≤ 1 + 1) × ((at part 1 >>= field_get) ≡ throw out_of_range))
field_get-at_slice_example = field_get-at_slice part 1 part-IsValid (omega arith)

index_lem_example :
    ((sample_fnumber (codes "a") ≡ none)
      × (0 < part.result.columns → index part (codes "a") ≡ throw out_of_range)
      × (part.result.columns ≡ 0 → index part (codes "a") ≡ throw aborted))
    ⊎ ((n : ℕ) × (sample_fnumber (codes "a") ≡ some n)
        × Finds part (sample_fname n) 0 (index part (codes "a")))
index_lem_example = index_lem part (codes "a") part-IsValid sample-IsFirst refl

-- `std::string`, and `std::tuple< std::optional< std::string >, std::string >`.
abbrev text : Desc Bytes
text = scalar (record { from = ok; null = none })

abbrev pair_type : Desc Bytes
pair_type = tuple (two (optional text) text)

part-IsShown : IsShown part
part-IsShown = record { exists = omega arith; within = omega arith; counted = omega arith }

as_type-row_example : as_type row_ops pair_type part ≡ (
    if size pair_type == length (cells part)
    then read runtime_error pair_type (cells part)
    else throw out_of_range)
as_type-row_example = as_type-row pair_type part part-IsShown

abbrev insert_end : List (Value Bytes) → Value Bytes → List (Value Bytes)
insert_end vs v = vs ++ v ∷ []

conversions-table_example :
    (as_one whole.result pair_type ≡ read_one pair_type (table whole.result))
    × (as_optional whole.result pair_type ≡ read_optional pair_type (table whole.result))
    × (as_container insert_end [] whole.result pair_type
        ≡ read_all runtime_error pair_type insert_end [] (table whole.result))
conversions-table_example =
    conversions-table pair_type insert_end [] whole.result (omega arith) (omega arith)

-- A result without columns is not converted.
no_columns :
    as_container insert_end [] (record whole.result { columns = 0 }) pair_type ≡ throw aborted
unfolding as_container has_columns
no_columns = refl
