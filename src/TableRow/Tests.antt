-- ===== src/TableRow/Tests.antt =====
-- A line of three columns, a row of its last two, and the theorems on rows of COPY TO at it.
use taopq.Base.{
  ◌+◌, ◌≤◌, ◌<◌, ◌≡◌, ◌⊎◌, [], ◌∷◌, none, some, if◌then◌else◌, ◌==◌, Bytes, codes, ok, throw,
  out_of_range, invalid_argument, ◌>>=◌, arith,
}
use taopq.Convert.{Scalar, Desc, scalar, optional, tuple, two, size, as_type}
use taopq.Convert.Reads.{read}
use taopq.TableRow.{TableRow, get, at, index, field_get, table_row_ops}
use taopq.TableRow.Reads.{IsValid, as_type-table_row}
use taopq.TableRow.Fields.{table_field-offset}

-- `std::string`.
abbrev text : Scalar Bytes
text = record { from = ok; null = none }

-- `std::tuple< std::optional< std::string >, std::string >`.
abbrev pair_type : Desc Bytes
pair_type = tuple (two (optional (scalar text)) (scalar text))

abbrev part : TableRow
part = record {
  raw_data = some (codes "1") ∷ none ∷ some (codes "3") ∷ [];
  offset = 1;
  columns = 2;
}

part-IsValid : IsValid part
part-IsValid = record { within = omega arith; counted = omega arith }

as_type-table_row_example : as_type table_row_ops pair_type part ≡ (
    if size pair_type == 2
    then read invalid_argument pair_type (none ∷ some (codes "3") ∷ [])
    else throw out_of_range)
as_type-table_row_example = as_type-table_row pair_type part part-IsValid

table_field-offset_example :
    ((at part 0 >>= λ f. ok (index f)) ≡ ok 0)
    × (((1 + 0 < 2) × ((at part 0 >>= field_get) ≡ get part (1 + 0)))
        ⊎ ((2 ≤ 1 + 0) × ((at part 0 >>= field_get) ≡ throw out_of_range)))
table_field-offset_example = table_field-offset part 0 part-IsValid (omega arith)
