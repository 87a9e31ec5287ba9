-- ===== src/SqlState/Classes.antt =====
-- The classes of SQLSTATE codes that exception.hpp documents, and when an exception belongs to a code.
use taopq.Base.{ℕ, [], ◌∷◌, Bytes, codes, Bool, true, false, member, ◌≡◌, ◌⊎◌, inl, inr, map, arith}
use taopq.SqlState.Table.{switch, first, second}
use taopq.SqlState.Dispatch.{SqlError, sql_error, documented, cases}

-- The second bytes of the classes that exception.hpp documents, for a first byte.
unfoldable pub seconds : ℕ → Bytes
seconds c =
    switch
      ((b'0', λ _. codes "012389ABFLPZ")
        ∷ (b'2', λ _. codes "012345678BDF")
        ∷ (b'3', λ _. codes "489BDF")
        ∷ (b'4', λ _. codes "024")
        ∷ (b'5', λ _. codes "34578")
        ∷ (b'7', λ _. codes "2")
        ∷ (b'F', λ _. codes "0")
        ∷ (b'H', λ _. codes "V")
        ∷ (b'P', λ _. codes "0")
        ∷ (b'X', λ _. codes "X")
        ∷ [])
      [] c []

pub seconds_none : (c : ℕ) → member c (map (λ r. r.0) cases) ≡ false → seconds c ≡ []
unfolding seconds switch member
seconds_none c h = ground arith

unfoldable pub is_documented : Bytes → Bool
is_documented s = member (second s) (seconds (first s))

abbrev pub any_class : Bytes
any_class = codes "xxx"

-- A documented code fits a code: it is that code, or a class that the code is in.
abbrev pub Fits : Bytes → Bytes → Type 0
Fits d s = (d ≡ s) ⊎ (d ≡ first s ∷ second s ∷ any_class)

-- The exception belongs to the code.
abbrev pub Belongs : SqlError → Bytes → Type 0
Belongs e s =
    ((e ≡ sql_error) × (is_documented s ≡ false))
    ⊎ ((is_documented s ≡ true) × Fits (documented e) s)

module _ (s : Bytes) where
  pub class_Fits :
      {E : Type 0} (code : E → Bytes) (generic e : E) (a b : ℕ)
      → code generic ≡ a ∷ b ∷ any_class
      → (e ≡ generic) ⊎ (code e ≡ s)
      → first s ≡ a
      → second s ≡ b
      → Fits (code e) s
  class_Fits code generic e a b d (inl g) f n = inr (rw (g, f, n) d)
  class_Fits code generic e a b d (inr x) f n = inl x
