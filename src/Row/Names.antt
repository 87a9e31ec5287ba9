-- ===== src/Row/Names.antt =====
-- `row::index`: the column that is found by a name.
use taopq.Base.{
  ℕ, zero, suc, ◌+◌, ◌-◌, ◌%◌, ◌≤◌, ◌<◌, ◌≡◌, ◌≢◌, ◌⊎◌, inl, inr, refl, false, Bytes, ltb, leb,
  ◌==◌, Result, ok, throw, out_of_range, aborted, arith, Bool-cases, ap, bytes_eq, bytes_eq_sound,
  bytes_eq_refl, none, some, Option-cases,
}
use taopq.QueryResult
use taopq.Row.{Row, size_mod, name, find_name, resolve, index}
use taopq.Row.Slices.{IsValid}

-- The name of a column of the row, as libpq gives it.
abbrev pub fname : Row → ℕ → Bytes
fname r c = r.result.pgresult.fname (r.offset + c)

leb-false : (a b : ℕ) → b < a → leb a b ≡ false
leb-false a b h = ground arith

name_lem : (r : Row) (c : ℕ) → IsValid r → c < r.columns → name r c ≡ ok (fname r c)
unfolding name QueryResult.name
name_lem r c v l =
    let e : (r.offset + c) % size_mod ≡ r.offset + c = omega (arith, v.within, v.counted) in
    let b : leb r.result.columns (r.offset + c) ≡ false = leb-false _ _ (omega (arith, v.within)) in
    rw (e, b)

from_here :
    (r : Row) (wanted : Bytes) (pos : ℕ)
    → fname r pos ≢ wanted
    → (i : ℕ) → pos ≤ i
    → (pos + 1 ≤ i → fname r i ≢ wanted)
    → fname r i ≢ wanted
from_here r wanted pos n i a h = elim (Bool-cases (i == pos)) [
  | inl e ↦ let z : i ≡ pos = ground arith in rw z n
  | inr e ↦ h (ground arith)
]

-- The answer is the row's first column of the name, from `pos` on, or a refusal where none is there.
abbrev pub Finds : Row → Bytes → ℕ → Result ℕ → Type 0
Finds r wanted pos answer =
    ((answer ≡ throw out_of_range) × ((i : ℕ) → pos ≤ i → i < r.columns → fname r i ≢ wanted))
    ⊎ ((c : ℕ) × (answer ≡ ok c)
        × (pos ≤ c)
        × (c < r.columns)
        × (fname r c ≡ wanted)
        × ((i : ℕ) → pos ≤ i → i < c → fname r i ≢ wanted))

-- The loop finds the first column of that name, from `pos` on.
find_name_lem :
    (r : Row) (wanted : Bytes) (left pos : ℕ)
    → IsValid r
    → pos + left ≡ r.columns
    → Finds r wanted pos (find_name r wanted left pos)
unfolding find_name
find_name_lem r wanted zero pos v e = inl (refl, (λ i a b. absurd (omega arith)))
find_name_lem r wanted (suc left) pos v e = elim (Bool-cases (bytes_eq (fname r pos) wanted)) [
  | inl q ↦ inr (
    pos,
    rw (name_lem r pos v (omega arith), q) refl,
    omega arith,
    omega arith,
    bytes_eq_sound _ _ q,
    (λ i a b. absurd (omega arith)),
  )
  | inr q ↦
      let n : fname r pos ≢ wanted =
        λ z. cc (q, ap (λ u. bytes_eq u wanted) z, bytes_eq_refl wanted) in
      let m : name r pos ≡ ok (fname r pos) = name_lem r pos v (omega arith) in
      elim (find_name_lem r wanted left (pos + 1) v (omega arith)) [
        | inl (f, g) ↦ inl (rw (m, q) f, (λ i a b. from_here r wanted pos n i a (λ k. g i k b)))
        | inr (c, f, a, b, w, g) ↦ inr (
          c,
          rw (m, q) f,
          omega arith,
          b,
          w,
          (λ i x y. from_here r wanted pos n i x (λ k. g i k y)),
        )
      ]
]

resolve_lem :
    (r : Row) (n : ℕ)
    → IsValid r
    → n < r.result.columns
    → ((i : ℕ) → r.result.pgresult.fname i ≡ r.result.pgresult.fname n → n ≤ i)
    → Finds r (r.result.pgresult.fname n) 0 (resolve r n)
unfolding resolve
resolve_lem r n v w first = elim (Bool-cases (leb r.offset n)) [
  | inl l ↦
      let k : r.offset + (n - r.offset) ≡ n = ground arith in
      elim (Bool-cases (ltb (n - r.offset) r.columns)) [
        | inl m ↦ inr (
          n - r.offset,
          rw (l, m),
          omega arith,
          ground arith,
          ap r.result.pgresult.fname k,
          (λ i a b z. absurd (omega (arith, first (r.offset + i) z, k))),
        )
        | inr m ↦ inl (rw (l, m), (λ i a b z. absurd (ground (arith, first (r.offset + i) z))))
      ]
  | inr l ↦
      let e : QueryResult.name r.result n ≡ ok (r.result.pgresult.fname n) =
        unfold QueryResult.name in rw (leb-false r.result.columns n w) in
      rw (l, e) (find_name_lem r (r.result.pgresult.fname n) r.columns 0 v (omega arith))
]

-- For every valid row of a result of libpq, where libpq answers a name with the first column of
-- that name: a name that libpq does not know is refused, where the result has a column, and breaks
-- an assertion where it has none. Else the answer is the row's first column
-- that bears the name of the column that libpq found, and a refusal exactly where the row has none.
pub index_lem :
    (r : Row) (in_name : Bytes)
    → IsValid r
    → QueryResult.IsFirst r.result.pgresult
    → r.result.columns ≡ r.result.pgresult.nfields
    → ((r.result.pgresult.fnumber in_name ≡ none)
        × (0 < r.result.columns → index r in_name ≡ throw out_of_range)
        × (r.result.columns ≡ 0 → index r in_name ≡ throw aborted))
      ⊎ ((n : ℕ) × (r.result.pgresult.fnumber in_name ≡ some n)
          × Finds r (r.result.pgresult.fname n) 0 (index r in_name))
unfolding index QueryResult.index
index_lem r in_name v first q = elim (Option-cases (r.result.pgresult.fnumber in_name)) [
  | inl e ↦ inl (
    e,
    (λ p. rw (QueryResult.has_columns-pos r.result p, e)),
    (λ z. unfold QueryResult.has_columns in rw (z)),
  )
  | inr (n, e) ↦ inr (
    n,
    e,
    rw (QueryResult.has_columns-pos r.result (omega (arith, first.within in_name n e, q)), e)
        (resolve_lem r n v (omega (arith, first.within in_name n e, q))
          (λ i z. first.first in_name n i e z)),
  )
]
