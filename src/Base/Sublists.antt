-- ===== src/Base/Sublists.antt =====
-- The elements of a part of a list.
use Prim.Native.Nat.{ℕ, zero, suc, ◌+◌, ◌≤◌, ◌<◌}
use mathlib.Core.Path.{◌≡◌, refl, ap}
use mathlib.Core.List.{List, [], ◌∷◌}
use mathlib.Core.Option.{some}
use native.Mathlib.Omega.{arith}
use taopq.Base.Lists.{length, get_elem?, take, drop}

pub take-take : {A : Type 0} (n m : ℕ) (xs : List A) → n ≤ m → take n (take m xs) ≡ take n xs
take-take zero m xs h = refl
take-take (suc n) zero xs h = absurd (omega (arith, h))
take-take (suc n) (suc m) [] h = refl
take-take (suc n) (suc m) (x ∷ xs) h = ap (◌∷◌ x) (take-take n m xs (omega (arith, h)))

-- A part of a part.
pub take-drop-take :
    {A : Type 0} (n o m : ℕ) (xs : List A)
    → o + n ≤ m
    → take n (drop o (take m xs)) ≡ take n (drop o xs)
take-drop-take n zero m xs h = take-take n m xs (omega (arith, h))
take-drop-take n (suc o) zero xs h = absurd (omega (arith, h))
take-drop-take n (suc o) (suc m) [] h = refl
take-drop-take n (suc o) (suc m) (x ∷ xs) h = take-drop-take n o m xs (omega (arith, h))

pub get_elem?_lt :
    {A : Type 0} (xs : List A) (n : ℕ) (x : A) → get_elem? xs n ≡ some x → n < length xs
get_elem?_lt [] n x e = cc
get_elem?_lt (y ∷ xs) zero x e = omega arith
get_elem?_lt (y ∷ xs) (suc n) x e = omega (arith, get_elem?_lt xs n x e)

pub get_elem?-take :
    {A : Type 0} (m : ℕ) (xs : List A) (n : ℕ) (x : A)
    → get_elem? (take m xs) n ≡ some x
    → get_elem? xs n ≡ some x
get_elem?-take zero xs n x e = cc
get_elem?-take (suc m) [] n x e = cc
get_elem?-take (suc m) (y ∷ xs) zero x e = e
get_elem?-take (suc m) (y ∷ xs) (suc n) x e = get_elem?-take m xs n x e

pub get_elem?-drop :
    {A : Type 0} (o : ℕ) (xs : List A) (n : ℕ) → get_elem? (drop o xs) n ≡ get_elem? xs (o + n)
get_elem?-drop zero xs n = let e : 0 + n ≡ n = omega arith in rw (e) refl
get_elem?-drop (suc o) [] n = refl
get_elem?-drop (suc o) (x ∷ xs) n =
    let e : suc o + n ≡ suc (o + n) = omega arith in rw (e) (get_elem?-drop o xs n)
