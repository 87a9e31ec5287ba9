-- ===== src/IndexScan/Blocks.antt =====
-- What the sequences of `gen` are: the columns of each value, one value behind the other.
use taopq.Base.{
  ℕ, zero, suc, ◌+◌, ◌-◌, ◌≤◌, ◌<◌, ◌≡◌, refl, ap, ◌∙◌, List, [], ◌∷◌, ◌++◌, map, length, arith,
}
use taopq.IndexScan.{
  index_sequence, sum, partial_sum, exclusive_scan, count_le, outer, select, inner, outer_sequence,
  inner_sequence,
}

-- Where each value begins, if the first one begins at `a`.
unfoldable pub offsets : ℕ → List ℕ → List ℕ
offsets a [] = []
offsets a (n ∷ ns) = a ∷ offsets (a + n) ns

-- For each column the value that it belongs to, the first of which is the value `j`.
unfoldable pub owners : ℕ → List ℕ → List ℕ
owners j [] = []
owners j (n ∷ ns) = map (λ _. j) (index_sequence 0 n) ++ owners (suc j) ns

-- For each column its place in its value.
unfoldable pub places : List ℕ → List ℕ
places [] = []
places (n ∷ ns) = index_sequence 0 n ++ places ns

map-index_sequence :
    {A : Type 0} (f g : ℕ → A) (a b n : ℕ)
    → ((i : ℕ) → i < n → f (a + i) ≡ g (b + i))
    → map f (index_sequence a n) ≡ map g (index_sequence b n)
unfolding index_sequence
map-index_sequence f g a b zero h = refl
map-index_sequence f g a b (suc n) h =
    let now : f a ≡ g b = ap f (omega arith) ∙ h 0 (omega arith) ∙ ap g (omega arith) in
    let later : (i : ℕ) → i < n → f (suc a + i) ≡ g (suc b + i) =
      λ i l. ap f (omega arith) ∙ h (suc i) (omega (arith, l)) ∙ ap g (omega arith) in
    rw (now, map-index_sequence f g (suc a) (suc b) n later) refl

map-append : {A B : Type 0} (f : A → B) (xs ys : List A) → map f (xs ++ ys) ≡ map f xs ++ map f ys
map-append f [] ys = refl
map-append f (x ∷ xs) ys = ap (◌∷◌ (f x)) (map-append f xs ys)

index_sequence-append :
    (a m n : ℕ) → index_sequence a (m + n) ≡ index_sequence a m ++ index_sequence (a + m) n
unfolding index_sequence
index_sequence-append a zero n =
    let e : 0 + n ≡ n = omega arith in let f : a + 0 ≡ a = omega arith in rw (e, f)
index_sequence-append a (suc m) n =
    let e : suc m + n ≡ suc (m + n) = omega arith in
    let f : a + suc m ≡ suc a + m = omega arith in
    rw (e, f) (ap (◌∷◌ a) (index_sequence-append (suc a) m n))

partial_sum_zero : (ns : List ℕ) (i k : ℕ) → k ≤ i → partial_sum ns i k ≡ 0
unfolding partial_sum
partial_sum_zero [] i k h = refl
partial_sum_zero (n ∷ ns) i k h = ground (arith, partial_sum_zero ns (suc i) k)

partial_sum-suc :
    (n : ℕ) (ns : List ℕ) (i k : ℕ)
    → i < k
    → partial_sum (n ∷ ns) i k ≡ n + partial_sum ns (suc i) k
unfolding partial_sum
partial_sum-suc n ns i k h = ground arith

-- The sum of what stands before an index.
partial_sum-offsets :
    (ns : List ℕ) (i a : ℕ)
    → map (λ k. a + partial_sum ns i k) (index_sequence i (length ns)) ≡ offsets a ns
unfolding index_sequence offsets
partial_sum-offsets [] i a = refl
partial_sum-offsets (n ∷ ns) i a =
    let first : a + partial_sum (n ∷ ns) i i ≡ a =
      omega (arith, partial_sum_zero (n ∷ ns) i i (omega arith)) in
    let same : (k : ℕ)
        → k < length ns
        → a + partial_sum (n ∷ ns) i (suc i + k) ≡ a + n + partial_sum ns (suc i) (suc i + k) =
      λ k l. omega (arith, partial_sum-suc n ns i (suc i + k) (omega arith)) in
    rw
      (
        first,
        map-index_sequence (λ k. a + partial_sum (n ∷ ns) i k)
            (λ k. a + n + partial_sum ns (suc i) k) (suc i) (suc i) (length ns) same,
        partial_sum-offsets ns (suc i) (a + n),
      )
      refl

-- `exclusive_scan` gives the offset of each value.
pub exclusive_scan-offsets : (ns : List ℕ) → exclusive_scan ns ≡ offsets 0 ns
unfolding exclusive_scan
exclusive_scan-offsets ns =
    map-index_sequence (partial_sum ns 0) (λ k. 0 + partial_sum ns 0 k) 0 0 (length ns)
      (λ i l. omega arith)
    ∙ partial_sum-offsets ns 0 0

-- Before the second offset there is one value.
count_le-below : (ns : List ℕ) (a i : ℕ) → i < a → count_le (offsets a ns) i ≡ 0
unfolding count_le offsets
count_le-below [] a i h = refl
count_le-below (n ∷ ns) a i h = ground (arith, count_le-below ns (a + n) i (omega arith))

count_le-above :
    (n : ℕ) (ns : List ℕ) (a i : ℕ)
    → a ≤ i
    → count_le (offsets a (n ∷ ns)) i ≡ suc (count_le (offsets (a + n) ns) i)
unfolding count_le offsets
count_le-above n ns a i h = ground (arith, h)

-- `outer` where the first of the values is the value `j`.
outer_at : ℕ → ℕ → List ℕ → ℕ → ℕ
outer_at j a ns i = j + count_le (offsets a ns) i - 1

outer_at-owners :
    (ns : List ℕ) (j a : ℕ) → map (outer_at j a ns) (index_sequence a (sum ns)) ≡ owners j ns
unfolding sum owners
outer_at-owners [] j a = unfold index_sequence in refl
outer_at-owners (n ∷ ns) j a =
    let here : (i : ℕ) → i < n → outer_at j a (n ∷ ns) (a + i) ≡ j = λ i l.
      unfold outer_at in
      omega (
        arith,
        count_le-above n ns a (a + i) (omega arith),
        count_le-below ns (a + n) (a + i) (omega arith),
      ) in
    let later : (i : ℕ)
        → i < sum ns
        → outer_at j a (n ∷ ns) (a + n + i) ≡ outer_at (suc j) (a + n) ns (a + n + i) =
      λ i l. unfold outer_at in omega (arith, count_le-above n ns a (a + n + i) (omega arith)) in
    rw
      (
        index_sequence-append a n (sum ns),
        map-append (outer_at j a (n ∷ ns)) (index_sequence a n) (index_sequence (a + n) (sum ns)),
        map-index_sequence (outer_at j a (n ∷ ns)) (λ _. j) a 0 n here,
        map-index_sequence (outer_at j a (n ∷ ns)) (outer_at (suc j) (a + n) ns) (a + n) (a + n)
            (sum ns) later,
        outer_at-owners ns (suc j) (a + n),
      )
      refl

-- Where the value `j` begins.
select_first : (n : ℕ) (ns : List ℕ) (a j w : ℕ) → w < j → select (offsets a ns) j w ≡ 0
unfolding select offsets
select_first n [] a j w h = refl
select_first n (m ∷ ns) a j w h = ground (arith, select_first n ns (a + m) (suc j) w (omega arith))

select_here : (n : ℕ) (ns : List ℕ) (a j : ℕ) → select (offsets a (n ∷ ns)) j j ≡ a
unfolding select offsets
select_here n ns a j = ground (arith, select_first n ns (a + n) (suc j) j (omega arith))

select_later :
    (n : ℕ) (ns : List ℕ) (a j w : ℕ)
    → j < w
    → select (offsets a (n ∷ ns)) j w ≡ select (offsets (a + n) ns) (suc j) w
unfolding select offsets
select_later n ns a j w h = ground (arith, h)

-- `inner` where the first of the values is the value `j`.
inner_at : ℕ → ℕ → List ℕ → ℕ → ℕ
inner_at j a ns i = i - select (offsets a ns) j (outer_at j a ns i)

inner_at-here : (n : ℕ) (ns : List ℕ) (j a i : ℕ) → i < n → inner_at j a (n ∷ ns) (a + i) ≡ 0 + i
unfolding inner_at outer_at
inner_at-here n ns j a i l =
    let e : j + count_le (offsets a (n ∷ ns)) (a + i) - 1 ≡ j = omega (
      arith,
      count_le-above n ns a (a + i) (omega arith),
      count_le-below ns (a + n) (a + i) (omega arith),
    ) in
    rw (e, select_here n ns a j) (omega arith)

inner_at-later :
    (n : ℕ) (ns : List ℕ) (j a i : ℕ)
    → i < sum ns
    → inner_at j a (n ∷ ns) (a + n + i) ≡ inner_at (suc j) (a + n) ns (a + n + i)
unfolding inner_at outer_at sum
inner_at-later n [] j a i l = absurd (omega (arith, l))
inner_at-later n (m ∷ ns) j a i l =
    let c = count_le-above n (m ∷ ns) a (a + n + i) (omega arith) in
    let d = count_le-above m ns (a + n) (a + n + i) (omega arith) in
    let e : j + count_le (offsets a (n ∷ m ∷ ns)) (a + n + i) - 1
        ≡ suc j + count_le (offsets (a + n) (m ∷ ns)) (a + n + i) - 1 =
      omega (arith, c) in
    rw
      (
        e,
        select_later n (m ∷ ns) a j (suc j + count_le (offsets (a + n) (m ∷ ns)) (a + n + i) - 1)
            (omega (arith, d)),
      )
      refl

inner_at-places :
    (ns : List ℕ) (j a : ℕ) → map (inner_at j a ns) (index_sequence a (sum ns)) ≡ places ns
unfolding sum places
inner_at-places [] j a = unfold index_sequence in refl
inner_at-places (n ∷ ns) j a =
    rw
      (
        index_sequence-append a n (sum ns),
        map-append (inner_at j a (n ∷ ns)) (index_sequence a n) (index_sequence (a + n) (sum ns)),
        map-index_sequence (inner_at j a (n ∷ ns)) (λ i. i) a 0 n
            (λ i l. inner_at-here n ns j a i l),
        map-index_sequence (inner_at j a (n ∷ ns)) (inner_at (suc j) (a + n) ns) (a + n) (a + n)
            (sum ns) (λ i l. inner_at-later n ns j a i l),
        map_same (index_sequence 0 n),
        inner_at-places ns (suc j) (a + n),
      )
      refl
  where
    map_same : (xs : List ℕ) → map (λ i. i) xs ≡ xs
    map_same [] = refl
    map_same (x ∷ xs) = ap (◌∷◌ x) (map_same xs)

same_inner : (ns : List ℕ) (i : ℕ) → inner (offsets 0 ns) i ≡ inner_at 0 0 ns i
unfolding inner outer inner_at outer_at
same_inner ns i =
    let e : 0 + count_le (offsets 0 ns) i ≡ count_le (offsets 0 ns) i = omega arith in rw (e) refl

-- `gen` goes through the columns of the values, one value behind the other: `outer_sequence` names
-- the value of each column, `inner_sequence` the column's place in its value.
pub gen_lem : (ns : List ℕ) → (outer_sequence ns ≡ owners 0 ns) × (inner_sequence ns ≡ places ns)
unfolding outer_sequence inner_sequence
gen_lem ns = rw (exclusive_scan-offsets ns) (
  map-index_sequence (outer (offsets 0 ns)) (outer_at 0 0 ns) 0 0 (sum ns)
        (λ i l. unfold outer outer_at in omega arith)
      ∙ outer_at-owners ns 0 0,
  map-index_sequence (inner (offsets 0 ns)) (inner_at 0 0 ns) 0 0 (sum ns)
        (λ i l. same_inner ns (0 + i))
      ∙ inner_at-places ns 0 0,
)
