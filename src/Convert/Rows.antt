-- ===== src/Convert/Rows.antt =====
-- `as` of a row against what its type reads from the row's cells.
use taopq.Base.{
  ℕ, zero, suc, ◌+◌, ◌≤◌, ◌≡◌, refl, ap, ◌∙◌, Bool, true, false, not, ◌&&◌, List, [], ◌∷◌, Option,
  none, some, if◌then◌else◌, ◌==◌, Bool-cases, inl, inr, take, drop, drop-drop, drop-cons,
  length-take, length-drop, length, Error, Result, ok, throw, out_of_range, ◌>>=◌, arith,
}
use taopq.IndexScan.Blocks.{offsets, exclusive_scan-offsets}
use taopq.Convert.{
  Scalar, Desc, scalar, optional, tuple, Descs, two, type, Value, absent, present, size, size_all,
  sizes, direct, RowOps, has_value, get_by, from_row, from_each, get_as, as_type,
}
use taopq.Convert.Reads.{
  Cells, is_none, all_null, read, read_each, Laws, size_pos, IsDirect, direct-IsDirect,
}

take_all : {A : Type 0} (xs : List A) → take (length xs) xs ≡ xs
take_all [] = refl
take_all (x ∷ xs) = ap (◌∷◌ x) (take_all xs)

drop_all : {A : Type 0} (n : ℕ) (xs : List A) → n ≡ length xs → drop n xs ≡ []
drop_all zero [] e = refl
drop_all zero (x ∷ xs) e = absurd (omega (arith, e))
drop_all (suc n) [] e = refl
drop_all (suc n) (x ∷ xs) e = drop_all n xs (omega (arith, e))

value_or : (a b : Bool) → (if a then ok (not b) else ok true) ≡ ok (not (a && b))
value_or true b = refl
value_or false b = refl

absent_or :
    {V : Type 0} (b : Bool) (x : Result (Value V))
    → (if not b then x else ok absent) ≡ (if b then ok absent else x)
absent_or true x = refl
absent_or false x = refl

lifted_none :
    {V : Type 0} (o : Option (Scalar (Value V)))
    → (elim o as (λ _. Option (Scalar (Value V))) [
      | none ↦ none
      | some d ↦ some (record { from = λ s. d.from s >>= λ v. ok (present v); null = some absent })
    ])
      ≡ none
    → o ≡ none
lifted_none none e = refl
lifted_none (some d) e = cc

scalar_some : {V : Type 0} (d : Scalar V) → ¬ (direct (scalar d) ≡ none)
unfolding direct
scalar_some d e = cc

optional_none : {V : Type 0} (t : Desc V) → direct (optional t) ≡ none → direct t ≡ none
unfolding direct
optional_none t e = lifted_none (direct t) e

module _ {R V : Type 0} (ops : RowOps R V) (failure : Error) (IsValid : R → Type 0)
    (cells : R → Cells) (laws : Laws ops failure IsValid cells) where
  has_value-all_null :
      (r : R) (n left : ℕ)
      → IsValid r
      → n + left ≡ length (cells r)
      → has_value ops r n left ≡ ok (not (all_null (drop n (cells r))))
  unfolding has_value all_null
  has_value-all_null r n zero v e = rw (drop_all n (cells r) (omega (arith, e))) refl
  has_value-all_null r n (suc left) v e =
      let (c, g, d) = drop-cons n (cells r) (omega (arith, e)) in
      rw (laws.is_null r n c v g, d, has_value-all_null r (suc n) left v (omega (arith, e)))
        (value_or (is_none c) (all_null (drop (suc n) (cells r))))

  -- What a type reads where it is composite.
  abbrev RowReads : Desc V → Type 0
  RowReads t =
      (s : R)
      → direct t ≡ none
      → IsValid s
      → length (cells s) ≡ size t
      → from_row ops t s ≡ read failure t (cells s)

  get_by-read :
      (t : Desc V) (o : Option (Scalar (Value V))) (r : R) (n : ℕ)
      → direct t ≡ o
      → IsDirect failure t o
      → RowReads t
      → IsValid r
      → n + size t ≤ length (cells r)
      → get_by ops o (from_row ops t) (size t) r n
        ≡ read failure t (take (size t) (drop n (cells r)))
  unfolding get_by
  get_by-read t none r n e i h v l =
      let (s, p, w, q) = laws.slice r n (size t) v (size_pos t) l in
      let m : length (cells s) ≡ size t =
        ap length q
        ∙ length-take (size t) (drop n (cells r))
            (omega (arith, length-drop n (cells r) (omega (arith, l)), l)) in
      rw (p) (h s e w m ∙ ap (read failure t) q)
  get_by-read t (some d) r n e (k, i) h v l =
      let (c, g, x) = drop-cons n (cells r) (omega (arith, k, l)) in
      rw (k, x) (laws.get_direct r n c d v g ∙ i c)

  optional-RowReads : (t : Desc V) → RowReads t → RowReads (optional t)
  unfolding from_row size read
  optional-RowReads t h s e v l =
      let n : ops.columns s ≡ length (cells s) = laws.columns s v in
      let z : has_value ops s 0 (ops.columns s) ≡ ok (not (all_null (cells s))) =
        ap (has_value ops s 0) n ∙ has_value-all_null s 0 (length (cells s)) v (omega arith) in
      rw (z, h s (optional_none t e) v l) (absent_or (all_null (cells s)) _)

  -- What is read behind `n` columns.
  abbrev RowReadsEach : Descs V → Type 0
  RowReadsEach ts =
      (r : R) (n : ℕ)
      → IsValid r
      → n + size_all ts ≤ length (cells r)
      → from_each ops ts (offsets n (sizes ts)) r ≡ read_each failure ts (drop n (cells r))

  tuple-RowReads : (ts : Descs V) → RowReadsEach ts → RowReads (tuple ts)
  unfolding from_row size read
  tuple-RowReads ts h s e v l =
      rw (exclusive_scan-offsets (sizes ts), h s 0 v (omega (arith, l))) refl

  two-RowReadsEach : (t u : Desc V) → RowReads t → RowReads u → RowReadsEach (two t u)
  unfolding from_row sizes offsets read size
  two-RowReadsEach t u h k r n v l =
      rw
        (
          get_by-read t (direct t) r n refl (direct-IsDirect failure t) h v (omega (arith, l)),
          get_by-read u (direct u) r (n + size t) refl (direct-IsDirect failure u) k v
              (omega (arith, l)),
          drop-drop (size t) n (cells r),
        )
        refl

  type-RowReadsEach :
      (t : Desc V) (ts : Descs V) → RowReads t → RowReadsEach ts → RowReadsEach (type t ts)
  unfolding from_row sizes offsets read size
  type-RowReadsEach t ts h k r n v l =
      rw
        (
          get_by-read t (direct t) r n refl (direct-IsDirect failure t) h v (omega (arith, l)),
          k r (n + size t) v (omega (arith, l)),
          drop-drop (size t) n (cells r),
        )
        refl

  mutual
    row-RowReads : (t : Desc V) → RowReads t
    row-RowReads (scalar d) = λ s e v l. absurd (scalar_some d e)
    row-RowReads (optional t) = optional-RowReads t (row-RowReads t)
    row-RowReads (tuple ts) = tuple-RowReads ts (each-RowReads ts)

    each-RowReads : (ts : Descs V) → RowReadsEach ts
    each-RowReads (two t u) = two-RowReadsEach t u (row-RowReads t) (row-RowReads u)
    each-RowReads (type t ts) = type-RowReadsEach t ts (row-RowReads t) (each-RowReads ts)

  -- A row is read as a value of the type where it has as many columns as the type, and what is read
  -- is what the type reads from the row's cells in order; another row is refused. That holds for
  -- any nesting of tuples and optionals.
  pub as_type-read :
      (t : Desc V) (r : R)
      → IsValid r
      → as_type ops t r
        ≡ (if size t == length (cells r) then read failure t (cells r) else throw out_of_range)
  unfolding as_type get_as
  as_type-read t r v =
      let whole =
        get_by-read t (direct t) r 0 refl (direct-IsDirect failure t) (row-RowReads t) v in
      rw (laws.columns r v) (elim (Bool-cases (size t == length (cells r))) [
        | inl e ↦
            let q : size t ≡ length (cells r) = ground (arith, e) in
            rw (e) (
              whole (omega (arith, q))
              ∙ ap (read failure t) (ap (λ n. take n (cells r)) q ∙ take_all (cells r)))
        | inr e ↦ rw (e) refl
      ])
