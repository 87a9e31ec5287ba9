-- ===== src/SqlState/Table.antt =====
-- The shape of `throw_sqlstate` in src/lib/pq/exception.cpp: rows of equality tests, and switches on a
-- byte of the code.
use taopq.Base.{
  ℕ, List, [], ◌∷◌, Bytes, Bool, true, false, ◌&&◌, bytes_eq, bytes_eq_sound, member, ◌≡◌, refl,
  ◌⊎◌, inl, inr, if◌then◌else◌, ◌==◌, head_or, arith, All, Bool-cases, map,
}

-- `if( sql_state == code ) { throw e; }` for each row, then the `throw` behind them.
unfoldable pub pick : {E : Type 0} → List (Bytes × E) → E → Bytes → E
pick [] generic s = generic
pick ((code, e) ∷ rows) generic s = if bytes_eq s code then e else pick rows generic s

-- `switch( c )` with a case for each row.
unfoldable pub switch : {E : Type 0} → List (ℕ × (Bytes → E)) → E → ℕ → Bytes → E
switch [] other c s = other
switch ((k, f) ∷ rows) other c s = if c == k then f s else switch rows other c s

-- `sql_state[ 0 ]` and `sql_state[ 1 ]`.
unfoldable pub first : Bytes → ℕ
first s = head_or 0 s

unfoldable pub second : Bytes → ℕ
second [] = 0
second (c ∷ s) = head_or 0 s

-- Whether each row throws the type whose documented code it tests for.
unfoldable pub agree : {E : Type 0} → (E → Bytes) → List (Bytes × E) → Bool
agree code [] = true
agree code ((c, e) ∷ rows) = bytes_eq (code e) c && agree code rows

pub pick-code :
    {E : Type 0} (code : E → Bytes) (rows : List (Bytes × E)) (generic : E) (s : Bytes)
    → agree code rows ≡ true
    → (pick rows generic s ≡ generic) ⊎ (code (pick rows generic s) ≡ s)
unfolding pick agree
pick-code code [] generic s h = inl refl
pick-code code ((c, e) ∷ rows) generic s h =
    ground (arith, bytes_eq_sound s c, bytes_eq_sound (code e) c, pick-code code rows generic s)

-- A property of the answer from its cases.
pub switch_cases :
    {E : Type 0} (P : E → Type 0) (rows : List (ℕ × (Bytes → E))) (other : E) (c : ℕ) (s : Bytes)
    → All (λ r. c ≡ r.0 → P (r.1 s)) rows
    → (member c (map (λ r. r.0) rows) ≡ false → P other)
    → P (switch rows other c s)
unfolding switch member
switch_cases P [] other c s h o = o refl
switch_cases P ((k, f) ∷ rows) other c s (h, hs) o = elim (Bool-cases (c == k)) [
  | inl e ↦ rw e (h (ground arith))
  | inr e ↦ rw e (switch_cases P rows other c s hs (λ m. o (rw (e, m))))
]
