-- ===== src/Row/Fields.antt =====
-- `pq::field` against `pq::row`: a field keeps a column of the result, and hands it to functions of
-- the row that want a column of the row.
use taopq.Base.{
  ℕ, ◌+◌, ◌%◌, ◌≤◌, ◌<◌, ◌≡◌, ◌⊎◌, inl, inr, refl, false, ltb, leb, ok, throw, out_of_range, arith,
  Bool-cases, ap, ◌>>=◌,
}
use taopq.Row.{
  Row, size_mod, get, is_null, at, ensure_column, field_get, field_is_null, field_index,
}
use taopq.Row.Slices.{IsValid}

at_lem :
    (r : Row) (c : ℕ)
    → IsValid r
    → c < r.columns
    → at r c ≡ ok (record { row = r; column = r.offset + c })
unfolding at
at_lem r c v l =
    let a : leb r.columns c ≡ false = ground arith in
    let e : (r.offset + c) % size_mod ≡ r.offset + c = omega (arith, v.within, v.counted) in
    rw (a, e)

-- In a valid row that starts at the result's first column, a field reads what the row reads, and
-- knows its column.
pub field_get-at_whole :
    (r : Row) (c : ℕ)
    → IsValid r
    → r.offset ≡ 0
    → ((at r c >>= field_get) ≡ get r c)
      × ((at r c >>= field_is_null) ≡ is_null r c)
      × ((at r c >>= λ f. ok (field_index f)) ≡ ensure_column r c (ok c))
field_get-at_whole r c v o = elim (Bool-cases (leb r.columns c)) [
  | inl e ↦
      (unfold at get in rw e, unfold at is_null in rw e, unfold at ensure_column in rw (e) refl)
  | inr e ↦
      let l : c < r.columns = ground arith in
      let z : r.offset + c ≡ c = omega arith in
      (
        rw (at_lem r c v l, z) (unfold field_get in refl),
        rw (at_lem r c v l, z) (unfold field_is_null in refl),
        rw (at_lem r c v l, z)
            (unfold field_index ensure_column in
              rw (e) (ap ok (omega (arith, v.within, v.counted)))),
      )
]

-- In any valid row, a field of an existing column reads the column that lies the row's offset
-- further on, and where that is behind the row's last column it is refused.
pub field_get-at_slice :
    (r : Row) (c : ℕ)
    → IsValid r
    → c < r.columns
    → ((r.offset + c < r.columns) × ((at r c >>= field_get) ≡ get r (r.offset + c)))
      ⊎ ((r.columns ≤ r.offset + c) × ((at r c >>= field_get) ≡ throw out_of_range))
field_get-at_slice r c v l = elim (Bool-cases (ltb (r.offset + c) r.columns)) [
  | inl e ↦ inl (ground arith, rw (at_lem r c v l) (unfold field_get in refl))
  | inr e ↦ inr (ground arith, rw (at_lem r c v l) (unfold field_get get in ground arith))
]
