-- ===== src/IndexScan.antt =====
-- The index sequences that the templates compute: include/tao/pq/internal/exclusive_scan.hpp and
-- include/tao/pq/internal/gen.hpp. The numbers are counts of columns, far below 2 ^ 64.
pub mod Blocks
pub mod Tests
use taopq.Base.{ℕ, zero, suc, ◌+◌, ◌-◌, List, [], ◌∷◌, map, length, if◌then◌else◌, ltb, leb, ◌==◌}

-- `i, i + 1, ...`, `n` numbers: `std::make_index_sequence< n >` where `i` is 0.
unfoldable pub index_sequence : ℕ → ℕ → List ℕ
index_sequence i zero = []
index_sequence i (suc n) = i ∷ index_sequence (suc i) n

-- `( 0 + ... + Ns )`.
unfoldable pub sum : List ℕ → ℕ
sum [] = 0
sum (n ∷ ns) = n + sum ns

-- The fold of `partial_sum< I >` over `Is` and `Ns`, from the index `i` on.
unfoldable pub partial_sum : List ℕ → ℕ → ℕ → ℕ
partial_sum [] i bound = 0
partial_sum (n ∷ ns) i bound = (if ltb i bound then n else 0) + partial_sum ns (suc i) bound

unfoldable pub exclusive_scan : List ℕ → List ℕ
exclusive_scan ns = map (partial_sum ns 0) (index_sequence 0 (length ns))

-- `( 0 + ... + ( ( Ns <= I ) ? 1 : 0 ) )`.
unfoldable pub count_le : List ℕ → ℕ → ℕ
count_le [] i = 0
count_le (n ∷ ns) i = (if leb n i then 1 else 0) + count_le ns i

unfoldable pub outer : List ℕ → ℕ → ℕ
outer scan i = count_le scan i - 1

-- `( 0 + ... + ( ( Js == J ) ? Ns : 0 ) )`, from the index `j` on.
unfoldable pub select : List ℕ → ℕ → ℕ → ℕ
select [] j wanted = 0
select (n ∷ ns) j wanted = (if j == wanted then n else 0) + select ns (suc j) wanted

unfoldable pub inner : List ℕ → ℕ → ℕ
inner scan i = i - select scan 0 (outer scan i)

unfoldable pub outer_sequence : List ℕ → List ℕ
outer_sequence ns = map (outer (exclusive_scan ns)) (index_sequence 0 (sum ns))

unfoldable pub inner_sequence : List ℕ → List ℕ
inner_sequence ns = map (inner (exclusive_scan ns)) (index_sequence 0 (sum ns))
