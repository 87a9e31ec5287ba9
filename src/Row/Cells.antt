-- ===== src/Row/Cells.antt =====
-- The cells that a `row` shows.
use taopq.Base.{
  ℕ, zero, suc, ◌+◌, ◌%◌, ◌≤◌, ◌<◌, ◌≡◌, refl, ap, sym, ◌∙◌, subst, Bool-cases, inl, inr, true,
  false, map, Bytes, Option, none, some, if◌then◌else◌, ltb, leb, ◌==◌, take, drop, drop-drop,
  length, length-take, length-drop, get_elem?, get_elem?_lt, get_elem?-take, get_elem?-drop,
  take-drop-take, Result, ok, throw, out_of_range, runtime_error, arith,
}
use taopq.QueryResult.{QueryResult}
use taopq.QueryResult
use taopq.IndexScan.{index_sequence}
use taopq.Row.{Row, size_mod, slice, get, is_null}
use taopq.Row.Typed.{get_nullable, get_direct, row_ops}
use taopq.Convert.{Desc, size, as_type}
use taopq.Convert.Reads.{Cells, Laws, read, read_cell, is_none}
use taopq.Convert.Rows.{as_type-read}

-- The row shows columns of a row of the result, whose columns can be counted.
pub record IsShown (r : Row) : Type 0 where
  pub exists : r.row < r.result.rows
  pub within : r.offset + r.columns ≤ r.result.columns
  pub counted : r.result.columns < size_mod

unfoldable pub cell : QueryResult → ℕ → ℕ → Option Bytes
cell q row column =
    if q.pgresult.getisnull row column then none else some (q.pgresult.getvalue row column)

unfoldable pub row_cells : QueryResult → ℕ → Cells
row_cells q row = map (cell q row) (index_sequence 0 q.columns)

abbrev pub cells : Row → Cells
cells r = take r.columns (drop r.offset (row_cells r.result r.row))

length-map_index : {A : Type 0} (f : ℕ → A) (a n : ℕ) → length (map f (index_sequence a n)) ≡ n
unfolding index_sequence
length-map_index f a zero = refl
length-map_index f a (suc n) = omega (arith, length-map_index f (suc a) n)

get_elem?-map_index :
    {A : Type 0} (f : ℕ → A) (a n i : ℕ)
    → i < n
    → get_elem? (map f (index_sequence a n)) i ≡ some (f (a + i))
unfolding index_sequence
get_elem?-map_index f a zero i h = absurd (omega (arith, h))
get_elem?-map_index f a (suc n) zero h = let e : a + 0 ≡ a = omega arith in rw (e) refl
get_elem?-map_index f a (suc n) (suc i) h =
    let e : a + suc i ≡ suc a + i = omega arith in
    rw (e) (get_elem?-map_index f (suc a) n i (omega (arith, h)))

pub length-row_cells : (q : QueryResult) (row : ℕ) → length (row_cells q row) ≡ q.columns
unfolding row_cells
length-row_cells q row = length-map_index (cell q row) 0 q.columns

pub length-cells : (r : Row) → IsShown r → length (cells r) ≡ r.columns
length-cells r v =
    let n = length-row_cells r.result r.row in
    length-take r.columns (drop r.offset (row_cells r.result r.row)) (
      omega (
        arith,
        v.within,
        n,
        length-drop r.offset (row_cells r.result r.row) (omega (arith, v.within, n)),
      ))

some_same : {A : Type 0} (a b : A) → some a ≡ some b → a ≡ b
some_same {A = A} a b e = ap (λ o. elim o as (λ _. A) [ none ↦ a | some x ↦ x ]) e

-- What a cell of the row is to the functions of the row.
cells-at :
    (r : Row) (n : ℕ) (c : Option Bytes)
    → IsShown r
    → get_elem? (cells r) n ≡ some c
    → (n < r.columns) × (cell r.result r.row (r.offset + n) ≡ c)
unfolding row_cells
cells-at r n c v e =
    let l : n < r.columns = omega (arith, get_elem?_lt (cells r) n c e, length-cells r v) in
    let g =
      get_elem?-map_index (cell r.result r.row) 0 r.result.columns (r.offset + n)
        (omega (arith, l, v.within)) in
    let h =
      sym (get_elem?-drop r.offset (row_cells r.result r.row) n)
      ∙ get_elem?-take r.columns (drop r.offset (row_cells r.result r.row)) n c e in
    (
      l,
      ap (cell r.result r.row) (omega arith)
          ∙ some_same (cell r.result r.row (0 + (r.offset + n))) c (sym g ∙ h),
    )

result_cell :
    (q : QueryResult) (row column : ℕ) (c : Option Bytes)
    → row < q.rows
    → column < q.columns
    → cell q row column ≡ c
    → (QueryResult.is_null q row column ≡ ok (is_none c))
      × (QueryResult.get q row column
          ≡ elim c as (λ _. Result Bytes) [ none ↦ throw runtime_error | some s ↦ ok s ])
unfolding QueryResult.is_null QueryResult.get QueryResult.check_row cell
result_cell q row column c h l e =
    subst
      (λ x.
        (QueryResult.is_null q row column ≡ ok (is_none x))
        × (QueryResult.get q row column
            ≡ elim x as (λ _. Result Bytes) [ none ↦ throw runtime_error | some s ↦ ok s ]))
      e
      (let a : ltb row q.rows ≡ true = ground (arith, h) in
        let p = QueryResult.has_columns-pos q (omega (arith, l)) in
        let b : leb q.columns column ≡ false = ground (arith, l) in
        elim (Bool-cases (q.pgresult.getisnull row column)) [
          | inl n ↦ rw (p, a, b, n) (unfold is_none in (refl, refl))
          | inr n ↦ rw (p, a, b, n) (unfold is_none in (refl, refl))
        ])

get-cells :
    (r : Row) (n : ℕ) (c : Option Bytes)
    → IsShown r
    → get_elem? (cells r) n ≡ some c
    → (is_null r n ≡ ok (is_none c))
      × (get r n ≡ elim c as (λ _. Result Bytes) [ none ↦ throw runtime_error | some s ↦ ok s ])
unfolding get is_null
get-cells r n c v e =
    let (l, q) = cells-at r n c v e in
    let a : leb r.columns n ≡ false = ground (arith, l) in
    let m : (r.offset + n) % size_mod ≡ r.offset + n = omega (arith, v.within, v.counted, l) in
    rw (a, m) (result_cell r.result r.row (r.offset + n) c v.exists (omega (arith, v.within, l)) q)

get_direct-read_cell :
    {V : Type 0} (r : Row) (n : ℕ) (c : Option Bytes) (from : Bytes → Result V) (null : Option V)
    → IsShown r
    → get_elem? (cells r) n ≡ some c
    → get_nullable r n from null ≡ read_cell runtime_error (record { from = from; null = null }) c
unfolding get_nullable read_cell is_none
get_direct-read_cell r n none from none v e = let (a, b) = get-cells r n none v e in rw (b) refl
get_direct-read_cell r n (some s) from none v e =
    let (a, b) = get-cells r n (some s) v e in rw (b) refl
get_direct-read_cell r n none from (some x) v e = let (a, b) = get-cells r n none v e in rw (a) refl
get_direct-read_cell r n (some s) from (some x) v e =
    let (a, b) = get-cells r n (some s) v e in rw (a, b) refl

slice-cells :
    (r : Row) (offset n : ℕ)
    → IsShown r
    → 0 < n
    → offset + n ≤ length (cells r)
    → (s : Row) × (slice r offset n ≡ ok s) × IsShown s × (cells s ≡ take n (drop offset (cells r)))
unfolding slice
slice-cells r offset n v p l =
    let k : offset + n ≤ r.columns = omega (arith, l, length-cells r v) in
    let a : (n == 0) ≡ false = ground (arith, p) in
    let m : (offset + n) % size_mod ≡ offset + n = omega (arith, v.within, v.counted, k) in
    let b : ltb r.columns (offset + n) ≡ false = ground (arith, k) in
    let o : (r.offset + offset) % size_mod ≡ r.offset + offset =
      omega (arith, v.within, v.counted, k) in
    (
      record r { offset = r.offset + offset; columns = n },
      rw (a, m, b, o) refl,
      record { exists = v.exists; within = omega (arith, v.within, k); counted = v.counted },
      ap (take n) (sym (drop-drop offset r.offset (row_cells r.result r.row)))
          ∙ sym (take-drop-take n offset r.columns (drop r.offset (row_cells r.result r.row)) k),
    )

pub row-Laws : {V : Type 0} → Laws (row_ops {V = V}) runtime_error IsShown cells
unfolding get_direct
row-Laws = record {
  columns = λ r v. sym (length-cells r v);
  is_null = λ r n c v e. (get-cells r n c v e).0;
  get_direct = λ r n c d v e. get_direct-read_cell r n c d.from d.null v e;
  slice = slice-cells;
}

-- A row that shows columns of an existing row of a result of fewer than 2 ^ 64 columns is
-- converted to the values that its type reads from the row's cells in order, for any nesting of
-- tuples and optionals; where the row has another number of columns than the type, it is refused.
pub as_type-row :
    {V : Type 0} (t : Desc V) (r : Row)
    → IsShown r
    → as_type row_ops t r
      ≡ (if size t == length (cells r) then read runtime_error t (cells r) else throw out_of_range)
as_type-row t r v = as_type-read row_ops runtime_error IsShown cells row-Laws t r v
