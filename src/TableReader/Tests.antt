-- ===== src/TableReader/Tests.antt =====
-- A table of two rows of two columns, an empty table, and the theorems on the reader at them.
use taopq.Base.{
  ◌≡◌, List, [], ◌∷◌, ◌++◌, none, some, Bytes, codes, ok, throw, overrun, invalid_argument, arith,
  refl,
}
use taopq.TableRow.{get}
use taopq.Convert.{Desc, scalar, optional, tuple, two, Value}
use taopq.Convert.Reads.{Cells}
use taopq.Convert.Tables.{read_all}
use taopq.TableReader.{row_of, begin, as_container}
use taopq.TableReader.Rows.{reader, as_container-lines, begin-empty}

-- `std::tuple< std::string, std::optional< std::string > >`.
abbrev row_type : Desc Bytes
row_type = tuple (
    two (scalar (record { from = ok; null = none }))
      (optional (scalar (record { from = ok; null = none }))))

-- `nrv.insert( nrv.end(), value )`.
abbrev insert_end : List (Value Bytes) → Value Bytes → List (Value Bytes)
insert_end vs v = vs ++ v ∷ []

abbrev first : Cells
first = some (codes "a") ∷ none ∷ []

abbrev second : Cells
second = some [] ∷ some (codes "b") ∷ []

as_container-lines_example :
    as_container insert_end row_type [] (reader 2 (first ∷ second ∷ []) [])
    ≡ read_all invalid_argument row_type insert_end [] (first ∷ second ∷ [])
as_container-lines_example =
    as_container-lines insert_end row_type 2 [] first (second ∷ []) [] (omega arith) (omega arith)
      ((refl, ((omega arith, tt), (tt, tt))), ((refl, (tt, ((omega arith, tt), tt))), tt))

begin-empty_example :
    (begin (reader 2 [] []) ≡ ok (reader 2 [] [], 2))
    × (get (row_of (reader 2 [] []) 2) 1 ≡ throw overrun)
begin-empty_example = begin-empty 2 1 [] (omega arith) (omega arith)
