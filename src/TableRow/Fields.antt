-- ===== src/TableRow/Fields.antt =====
-- `pq::table_field` against `pq::table_row`: a field keeps a column of the reader, and hands it to
-- functions of the row that want a column of the row.
use taopq.Base.{
  ℕ, ◌+◌, ◌%◌, ◌≤◌, ◌<◌, ◌≡◌, ◌⊎◌, inl, inr, refl, ap, false, ltb, leb, ok, throw, out_of_range,
  arith, Bool-cases, ◌>>=◌,
}
use taopq.Row.{size_mod}
use taopq.TableRow.{TableRow, get, at, index, field_get}
use taopq.TableRow.Reads.{IsValid}

at-column :
    (r : TableRow) (c : ℕ)
    → IsValid r
    → c < r.columns
    → at r c ≡ ok (record { row = r; column = r.offset + c })
unfolding at
at-column r c v l =
    let a : leb r.columns c ≡ false = ground (arith, l) in
    let e : (r.offset + c) % size_mod ≡ r.offset + c = omega (arith, v.within, v.counted, l) in
    rw (a, e) refl

-- A field of an existing column of a valid row of COPY TO knows its column, but reads the column
-- that lies the row's offset further on, and where that is behind the row's last column it is
-- refused.
pub table_field-offset :
    (r : TableRow) (c : ℕ)
    → IsValid r
    → c < r.columns
    → ((at r c >>= λ f. ok (index f)) ≡ ok c)
      × (((r.offset + c < r.columns) × ((at r c >>= field_get) ≡ get r (r.offset + c)))
          ⊎ ((r.columns ≤ r.offset + c) × ((at r c >>= field_get) ≡ throw out_of_range)))
table_field-offset r c v l = (
  rw (at-column r c v l) (unfold index in ap ok (omega (arith, v.within, v.counted, l))),
  elim (Bool-cases (ltb (r.offset + c) r.columns)) [
    | inl e ↦ inl (ground arith, rw (at-column r c v l) (unfold field_get in refl))
    | inr e ↦ inr (ground arith, rw (at-column r c v l) (unfold field_get get in ground arith))
  ],
)
