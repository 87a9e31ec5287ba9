-- ===== src/CopyText/Shows.antt =====
-- What the pointers of `m_data` show while the buffer is overwritten behind them.
use taopq.Base.{
  ℕ, ◌≡◌, refl, ap, ◌∙◌, List, [], ◌∷◌, ◌++◌, append_assoc, Option, none, some, length, Bytes,
  IsText, c_str, arith,
}
use taopq.CopyText.{Reader, from_offset, fields}
use taopq.CopyText.Buffer.{from_offset-append}

-- A string of `front` with its terminator, at the offset `p`.
abbrev pub ShowsOne : Bytes → Option ℕ → Option Bytes → Type 0
ShowsOne front none none = Unit {0}
ShowsOne front none (some v) = ⊥
ShowsOne front (some p) none = ⊥
ShowsOne front (some p) (some v) =
    (a b : Bytes) × (front ≡ a ++ (v ++ 0 ∷ b)) × (p ≡ length a) × IsText v

abbrev pub Shows : Bytes → List (Option ℕ) → List (Option Bytes) → Type 0
Shows front [] [] = Unit {0}
Shows front [] (v ∷ vs) = ⊥
Shows front (p ∷ ps) [] = ⊥
Shows front (p ∷ ps) (v ∷ vs) = ShowsOne front p v × Shows front ps vs

-- What is written behind `front` does not change it.
ShowsOne-more :
    (front more : Bytes) (p : Option ℕ) (v : Option Bytes)
    → ShowsOne front p v
    → ShowsOne (front ++ more) p v
ShowsOne-more front more none none s = tt
ShowsOne-more front more (some p) (some v) (a, b, e, l, t) = (
  a,
  b ++ more,
  ap (λ x. x ++ more) e
      ∙ append_assoc a (v ++ 0 ∷ b) more
      ∙ ap (◌++◌ a) (append_assoc v (0 ∷ b) more),
  l,
  t,
)
ShowsOne-more front more none (some v) s = absurd s
ShowsOne-more front more (some p) none s = absurd s

pub Shows-more :
    (front more : Bytes) (ps : List (Option ℕ)) (vs : List (Option Bytes))
    → Shows front ps vs
    → Shows (front ++ more) ps vs
Shows-more front more [] [] s = tt
Shows-more front more (p ∷ ps) (v ∷ vs) s =
    (ShowsOne-more front more p v s.0, Shows-more front more ps vs s.1)
Shows-more front more [] (v ∷ vs) s = absurd s
Shows-more front more (p ∷ ps) [] s = absurd s

pub Shows-last :
    (front : Bytes) (ps : List (Option ℕ)) (vs : List (Option Bytes)) (p : Option ℕ)
    (v : Option Bytes)
    → Shows front ps vs
    → ShowsOne front p v
    → Shows front (ps ++ p ∷ []) (vs ++ v ∷ [])
Shows-last front [] [] p v s o = (o, tt)
Shows-last front (q ∷ ps) (w ∷ vs) p v s o = (s.0, Shows-last front ps vs p v s.1 o)
Shows-last front [] (w ∷ vs) p v s o = absurd s
Shows-last front (q ∷ ps) [] p v s o = absurd s

c_str_terminated : (v b : Bytes) → IsText v → c_str (v ++ 0 ∷ b) ≡ v
unfolding c_str
c_str_terminated [] b t = refl
c_str_terminated (c ∷ v) b t = ground (arith, c_str_terminated v b t.1)

-- The pointers show the values in the buffer that begins with `front`.
pub fields-Shows :
    (r : Reader) (front more : Bytes) (ps : List (Option ℕ)) (vs : List (Option Bytes))
    → r.buffer ≡ front ++ more
    → Shows front ps vs
    → fields r ps ≡ vs
unfolding fields
fields-Shows r front more [] [] e s = refl
fields-Shows r front more (none ∷ ps) (none ∷ vs) e s =
    ap (◌∷◌ none) (fields-Shows r front more ps vs e s.1)
fields-Shows r front more (some p ∷ ps) (some v ∷ vs) e s =
    let (a, b, f, l, t) = s.0 in
    let at : from_offset p r.buffer ≡ v ++ 0 ∷ (b ++ more) =
      ap (λ x. from_offset x r.buffer) l
      ∙ ap (from_offset (length a)) (
          e
          ∙ ap (λ x. x ++ more) f
          ∙ append_assoc a (v ++ 0 ∷ b) more
          ∙ ap (◌++◌ a) (append_assoc v (0 ∷ b) more))
      ∙ from_offset-append a (v ++ 0 ∷ (b ++ more)) in
    rw (at, c_str_terminated v (b ++ more) t)
      (ap (◌∷◌ (some v)) (fields-Shows r front more ps vs e s.1))
fields-Shows r front more (none ∷ ps) (some v ∷ vs) e s = absurd s.0
fields-Shows r front more (some p ∷ ps) (none ∷ vs) e s = absurd s.0
fields-Shows r front more [] (v ∷ vs) e s = absurd s
fields-Shows r front more (p ∷ ps) [] e s = absurd s
