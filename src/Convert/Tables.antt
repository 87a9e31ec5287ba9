-- ===== src/Convert/Tables.antt =====
-- What a type reads from whole tables: a row of the right number of cells, and rows inserted into a
-- container in order.
use taopq.Base.{
  ℕ, zero, suc, ap, take, arith, ◌≡◌, refl, List, [], ◌∷◌, if◌then◌else◌, ◌==◌, length, Error,
  Result, ok, throw, out_of_range, ◌>>=◌,
}
use taopq.Convert.{Desc, Value, size}
use taopq.Convert.Reads.{Cells, read}

module _ {V : Type 0} (failure : Error) (t : Desc V) where
  unfoldable pub read_row : Cells → Result (Value V)
  read_row cs = if size t == length cs then read failure t cs else throw out_of_range

  -- All rows, inserted in order; the first row that is refused ends it.
  unfoldable pub read_all : {C : Type 0} → (C → Value V → C) → C → List Cells → Result C
  read_all insert nrv [] = ok nrv
  read_all insert nrv (cs ∷ rest) = read_row cs >>= λ v. read_all insert (insert nrv v) rest

pub bind_same :
    {A B : Type 0} (m : Result A) (f g : A → Result B)
    → ((a : A) → f a ≡ g a)
    → (m >>= f) ≡ (m >>= g)
bind_same (ok a) f g e = e a
bind_same (throw x) f g e = refl

pub take_whole : {A : Type 0} (n : ℕ) (xs : List A) → length xs ≡ n → take n xs ≡ xs
take_whole zero [] e = refl
take_whole zero (x ∷ xs) e = absurd (omega (arith, e))
take_whole (suc n) [] e = refl
take_whole (suc n) (x ∷ xs) e = ap (◌∷◌ x) (take_whole n xs (omega (arith, e)))
