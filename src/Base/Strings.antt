-- ===== src/Base/Strings.antt =====
-- `std::string`, `std::string_view` and C strings as lists of bytes, and the functions of the C++
-- library on them that the source calls.
use Prim.Native.Nat.{ℕ}
use Prim.Native.Char.{code}
use Prim.Native.String.{String}
use mathlib.Core.Path.{◌≡◌, refl}
use mathlib.Core.Logic.{◌≢◌, ◌⊎◌, inl, inr}
use mathlib.Core.Bool.{Bool, true, false, ◌&&◌, ◌||◌}
use mathlib.Core.List.{List, [], ◌∷◌, ◌++◌}
use native.Mathlib.Omega.{arith}
use taopq.Base.Tests.{◌==◌, if◌then◌else◌, Bool-cases}
use taopq.Base.Lists.{All}

abbrev pub Bytes : Type 0
Bytes = List ℕ

-- The bytes of a literal, which is ASCII in the source.
abbrev pub codes : String → Bytes
codes String.[] = []
codes (String.◌∷◌ c s) = code c ∷ codes s

-- Whether a byte is in a set that is written as a string.
unfoldable pub member : ℕ → Bytes → Bool
member c [] = false
member c (d ∷ ds) = c == d || member c ds

-- `a == b` on strings.
unfoldable pub bytes_eq : Bytes → Bytes → Bool
bytes_eq [] [] = true
bytes_eq [] (y ∷ ys) = false
bytes_eq (x ∷ xs) [] = false
bytes_eq (x ∷ xs) (y ∷ ys) = x == y && bytes_eq xs ys

-- `find_first_of( set ) != npos`.
unfoldable pub has_any : Bytes → Bytes → Bool
has_any set [] = false
has_any set (c ∷ s) = member c set || has_any set s

-- `find_first_of( set )` and `strpbrk`: the bytes before the first one of the set, and the rest from
-- that byte on, which is empty where no byte of the set is found.
unfoldable pub break_at : Bytes → Bytes → Bytes × Bytes
unfolding member
break_at set [] = ([], [])
break_at set (c ∷ s) =
    let (before, rest) = break_at set s in if member c set then ([], c ∷ s) else (c ∷ before, rest)

-- A C string: no byte of it is the terminator.
abbrev pub IsText : Bytes → Type 0
IsText = All (λ c. c ≢ 0)

pub bytes_eq_sound : (a b : Bytes) → bytes_eq a b ≡ true → a ≡ b
unfolding bytes_eq
bytes_eq_sound [] [] h = refl
bytes_eq_sound [] (y ∷ ys) h = cc
bytes_eq_sound (x ∷ xs) [] h = cc
bytes_eq_sound (x ∷ xs) (y ∷ ys) h = ground (arith, bytes_eq_sound xs ys)

pub bytes_eq_refl : (a : Bytes) → bytes_eq a a ≡ true
unfolding bytes_eq
bytes_eq_refl [] = refl
bytes_eq_refl (x ∷ xs) = ground (arith, bytes_eq_refl xs)

-- `c_str()` read as a C string: what stands before the first terminator.
unfoldable pub c_str : Bytes → Bytes
c_str [] = []
c_str (c ∷ s) = if c == 0 then [] else c ∷ c_str s

pub c_str-IsText : (s : Bytes) → IsText s → c_str s ≡ s
unfolding c_str
c_str-IsText [] h = refl
c_str-IsText (c ∷ s) h = ground (arith, c_str-IsText s h.1)

-- No byte of `s` is in `set`.
abbrev pub Avoids : Bytes → Bytes → Type 0
Avoids set = All (λ c. member c set ≡ false)

-- Where `break_at` stops: at the end, or at the first byte of the set.
abbrev pub Breaks : Bytes → Bytes → Bytes × Bytes → Type 0
Breaks set s r =
    ((r ≡ (s, [])) × Avoids set s)
    ⊎ ((before : Bytes) × (c : ℕ) × (rest : Bytes) × (r ≡ (before, c ∷ rest))
        × (s ≡ before ++ c ∷ rest)
        × (member c set ≡ true)
        × Avoids set before)

pub break_at-Breaks : (set s : Bytes) → Breaks set s (break_at set s)
unfolding break_at
break_at-Breaks set [] = inl (refl, tt)
break_at-Breaks set (c ∷ s) = elim (Bool-cases (member c set)) [
  | inl e ↦ inr ([], c, s, ground arith, refl, e, tt)
  | inr e ↦ elim (break_at-Breaks set s) [
    | inl (r, h) ↦ inl (ground arith, (e, h))
    | inr (b, d, rest, r, t, m, h) ↦ inr (c ∷ b, d, rest, ground arith, ground arith, m, (e, h))
  ]
]

pub break_at_found :
    (set before : Bytes) (c : ℕ) (rest : Bytes)
    → Avoids set before
    → member c set ≡ true
    → break_at set (before ++ c ∷ rest) ≡ (before, c ∷ rest)
unfolding break_at
break_at_found set [] c rest h m = ground arith
break_at_found set (b ∷ bs) c rest h m = ground (arith, break_at_found set bs c rest h.1 m)

pub break_at_none : (set s : Bytes) → Avoids set s → break_at set s ≡ (s, [])
unfolding break_at
break_at_none set [] h = refl
break_at_none set (b ∷ bs) h = ground (arith, break_at_none set bs h.1)
