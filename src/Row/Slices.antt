-- ===== src/Row/Slices.antt =====
-- `row::slice`: what the slice shows, when it is refused, and what an overflow of its check does.
use taopq.Base.{
  ℕ, ◌+◌, ◌-◌, ◌%◌, ◌≤◌, ◌<◌, ◌≡◌, ◌⊎◌, inl, inr, false, ltb, leb, ◌==◌, ok, throw, out_of_range,
  invalid_argument, arith, Bool-cases,
}
use taopq.Row.{Row, size_mod, slice, get}

-- A row shows columns of its result, and the result's columns can be counted.
pub record IsValid (r : Row) : Type 0 where
  pub within : r.offset + r.columns ≤ r.result.columns
  pub counted : r.result.columns < size_mod

ltb-false : (a b : ℕ) → ltb a b ≡ false → b ≤ a
ltb-false a b h = ground arith

get-slice :
    (r : Row) (offset n c : ℕ)
    → IsValid r
    → offset + n ≤ r.columns
    → c < n
    → get (record r { offset = r.offset + offset; columns = n }) c ≡ get r (offset + c)
unfolding get
get-slice r offset n c v q l =
    let a : leb n c ≡ false = ground arith in
    let b : leb r.columns (offset + c) ≡ false = ground arith in
    let e : r.offset + offset + c ≡ r.offset + (offset + c) = omega arith in rw (a, b, e)

get_behind : (s : Row) (c : ℕ) → s.columns ≤ c → get s c ≡ throw out_of_range
unfolding get
get_behind s c l = ground arith

pub slice-cases :
    (r : Row) (offset n : ℕ)
    → IsValid r
    → offset + n < size_mod
    → ((0 < n)
        × (offset + n ≤ r.columns)
        × (slice r offset n ≡ ok (record r { offset = r.offset + offset; columns = n })))
      ⊎ ((n ≡ 0) × (slice r offset n ≡ throw invalid_argument))
      ⊎ ((0 < n) × (r.columns < offset + n) × (slice r offset n ≡ throw out_of_range))
unfolding slice
slice-cases r offset n v h =
    let m : (offset + n) % size_mod ≡ offset + n = omega arith in
    elim (Bool-cases (n == 0)) [
      | inl e ↦ inr (inl (ground arith, rw e))
      | inr e ↦ elim (Bool-cases (ltb r.columns (offset + n))) [
        | inl l ↦ inr (inr (ground arith, ground arith, rw (e, m, l)))
        | inr l ↦
            let k : (r.offset + offset) % size_mod ≡ r.offset + offset =
              omega (arith, ltb-false r.columns (offset + n) l) in
            inl (ground arith, ground arith, rw (e, m, l, k))
      ]
    ]

-- A slice is refused exactly where it asks for no column or for a column behind the row's last, as
-- long as its last column can be counted. A slice that is given is a valid row, and shows at each
-- of its columns what the row shows `offset` columns further on, and nothing behind its last.
pub slice-get :
    (r : Row) (offset n : ℕ)
    → IsValid r
    → offset + n < size_mod
    → ((n ≡ 0) × (slice r offset n ≡ throw invalid_argument))
      ⊎ ((0 < n) × (r.columns < offset + n) × (slice r offset n ≡ throw out_of_range))
      ⊎ ((0 < n)
          × (offset + n ≤ r.columns)
          × (s : Row) × (slice r offset n ≡ ok s)
          × IsValid s
          × ((c : ℕ) → c < n → get s c ≡ get r (offset + c))
          × ((c : ℕ) → n ≤ c → get s c ≡ throw out_of_range))
slice-get r offset n v h = elim (slice-cases r offset n v h) [
  | inl (p, q, e) ↦ inr (
      inr (
        p,
        q,
        record r { offset = r.offset + offset; columns = n },
        e,
        record { within = omega arith; counted = v.counted },
        (λ c l. get-slice r offset n c v q l),
        (λ c l. get_behind (record r { offset = r.offset + offset; columns = n }) c l),
      ))
  | inr (inl e) ↦ inl e
  | inr (inr e) ↦ inr (inl e)
]

-- The sum in the check of `slice` wraps around. Where it does and the check passes, the row that is
-- returned is not a part of the row that was sliced: it starts before it, or ends behind it.
pub slice_overflow :
    (r : Row) (offset n : ℕ)
    → IsValid r
    → offset < size_mod
    → n < size_mod
    → 0 < n
    → size_mod ≤ offset + n
    → offset + n - size_mod ≤ r.columns
    → (s : Row) × (slice r offset n ≡ ok s)
      × ¬ ((r.offset ≤ s.offset) × (s.offset + s.columns ≤ r.offset + r.columns))
unfolding slice
slice_overflow r offset n v ho hn p w q =
    let m : (offset + n) % size_mod ≡ offset + n - size_mod = omega arith in
    let a : (n == 0) ≡ false = ground arith in
    let b : ltb r.columns (offset + n - size_mod) ≡ false = ground arith in
    (record r { offset = (r.offset + offset) % size_mod; columns = n }, rw (a, m, b), omega arith)
