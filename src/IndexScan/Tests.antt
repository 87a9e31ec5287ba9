-- ===== src/IndexScan/Tests.antt =====
-- The index sequences of three values, the second of which has no column.
use taopq.Base.{◌≡◌, refl, [], ◌∷◌}
use taopq.IndexScan.{index_sequence, partial_sum, exclusive_scan, outer_sequence, inner_sequence}
use taopq.IndexScan.Blocks.{owners, places, gen_lem}

scanned : exclusive_scan (2 ∷ 0 ∷ 3 ∷ []) ≡ 0 ∷ 2 ∷ 2 ∷ []
unfolding exclusive_scan partial_sum index_sequence
scanned = refl

owned : owners 0 (2 ∷ 0 ∷ 3 ∷ []) ≡ 0 ∷ 0 ∷ 2 ∷ 2 ∷ 2 ∷ []
unfolding owners index_sequence
owned = refl

gen_lem_example :
    (outer_sequence (2 ∷ 0 ∷ 3 ∷ []) ≡ owners 0 (2 ∷ 0 ∷ 3 ∷ []))
    × (inner_sequence (2 ∷ 0 ∷ 3 ∷ []) ≡ places (2 ∷ 0 ∷ 3 ∷ []))
gen_lem_example = gen_lem (2 ∷ 0 ∷ 3 ∷ [])
