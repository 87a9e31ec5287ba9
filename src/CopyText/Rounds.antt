-- ===== src/CopyText/Rounds.antt =====
-- What one round of the loop of `parse_data` does at each byte where `strpbrk` stops.
use taopq.Base.{
  ℕ, suc, ◌≤◌, ◌<◌, ◌≡◌, refl, sym, ◌∙◌, subst, true, false, List, [], ◌∷◌, ◌++◌, append_assoc,
  append-nil, Option, none, some, ◌==◌, All, length, length-append, Bytes, IsText, member, arith,
  Result, ok,
}
use taopq.CopyText.{
  Reader, from_offset, put, end_field, start_field, after_null, after_backslash, fields,
}
use taopq.CopyText.Buffer.{Holds, skip-Holds, put-Holds, start_field-Holds, from_offset-Holds}
use taopq.CopyText.Text.{controls, letter, letter_text, unescaped-letter, after, line, IsCell}
use taopq.CopyText.Shows.{Shows, Shows-more, Shows-last, fields-Shows}

-- A reader comes back whose pointers show the values.
abbrev pub ReadsTo : Result Reader → List (Option Bytes) → Type 0
ReadsTo answer vs = (r : Reader) × (answer ≡ ok r) × (fields r r.raw_data ≡ vs)

-- A cell of which `d` was read before.
abbrev pub joined : Bytes → Option Bytes → Option Bytes
joined d none = none
joined d (some s) = some (d ++ s)

-- The next rounds read the rest of a line that is shorter than `fuel`.
abbrev pub Reads : ℕ → (Reader → Result Reader) → Type 0
Reads fuel more =
    (r : Reader) (f d g : Bytes) (w : Option Bytes) (vs seen : List (Option Bytes))
    → Holds r r.read f d g (line w vs)
    → IsText d
    → IsCell w
    → All IsCell vs
    → Shows f r.raw_data seen
    → length (line w vs) < fuel
    → ReadsTo (more r) (seen ++ joined d w ∷ vs)

pub joined_nil : (w : Option Bytes) → joined [] w ≡ w
joined_nil none = refl
joined_nil (some s) = refl

end_field-Holds :
    (r : Reader) (n : ℕ) (f d g rest : Bytes)
    → Holds r n f d g rest
    → 1 ≤ length g
    → Holds (end_field r) n f (d ++ 0 ∷ []) (from_offset 1 g) rest
unfolding end_field
end_field-Holds r n f d g rest h l =
    put-Holds _ n 0 f d g rest
      (record { buffer = h.buffer; begin = h.begin; write = h.write; read = h.read }) l

end_field-Shows :
    (r : Reader) (n : ℕ) (f d g rest : Bytes) (seen : List (Option Bytes))
    → Holds r n f d g rest
    → IsText d
    → Shows f r.raw_data seen
    → Shows (f ++ (d ++ 0 ∷ [])) (end_field r).raw_data (seen ++ some d ∷ [])
unfolding end_field put
end_field-Shows r n f d g rest seen h t s =
    Shows-last (f ++ (d ++ 0 ∷ [])) r.raw_data seen (some r.begin) (some d)
      (Shows-more f (d ++ 0 ∷ []) r.raw_data seen s) (f, [], refl, h.begin, t)

gap_one : (g : Bytes) (c : ℕ) → 1 ≤ length (g ++ c ∷ [])
gap_one g c = omega (arith, length-append g (c ∷ []))

-- The newline that ends a line.
pub newline-ReadsTo :
    (r : Reader) (n : ℕ) (f d g : Bytes) (seen : List (Option Bytes))
    → Holds r n f d g (10 ∷ [])
    → IsText d
    → Shows f r.raw_data seen
    → ReadsTo (ok (end_field r)) (seen ++ some d ∷ [])
newline-ReadsTo r n f d g seen h t s =
    let e =
      end_field-Holds r (suc n) f d (g ++ 10 ∷ []) [] (skip-Holds r n 10 f d g [] h)
        (gap_one g 10) in
    (
      end_field r,
      refl,
      fields-Shows (end_field r) _ _ _ _ e.buffer (end_field-Shows r n f d g (10 ∷ []) seen h t s),
    )

-- The next cell begins.
start-ReadsTo :
    (fuel : ℕ) (more : Reader → Result Reader)
    → Reads fuel more
    → (r : Reader) (n : ℕ) (f d g : Bytes) (v : Option Bytes) (vs seen : List (Option Bytes))
    → Holds r n f d g (line v vs)
    → IsCell v
    → All IsCell vs
    → Shows (f ++ (d ++ g)) r.raw_data seen
    → length (line v vs) < fuel
    → ReadsTo (more (start_field r n)) (seen ++ v ∷ vs)
unfolding start_field
start-ReadsTo fuel more next r n f d g v vs seen h c cs s l =
    subst (λ x. ReadsTo (more (start_field r n)) (seen ++ x ∷ vs)) (joined_nil v)
      (next (start_field r n) (f ++ (d ++ g)) [] [] v vs seen
        (start_field-Holds r n f d g (line v vs) h) tt c cs s l)

-- The tab behind a value.
pub tab-ReadsTo :
    (fuel : ℕ) (more : Reader → Result Reader)
    → Reads fuel more
    → (r : Reader) (n : ℕ) (f d g : Bytes) (v : Option Bytes) (vs seen : List (Option Bytes))
    → Holds r n f d g (9 ∷ line v vs)
    → IsText d
    → IsCell v
    → All IsCell vs
    → Shows f r.raw_data seen
    → length (line v vs) < fuel
    → ReadsTo (more (start_field (end_field r) (suc n))) (seen ++ some d ∷ v ∷ vs)
tab-ReadsTo fuel more next r n f d g v vs seen h t c cs s l =
    let e =
      end_field-Holds r (suc n) f d (g ++ 9 ∷ []) (line v vs) (skip-Holds r n 9 f d g (line v vs) h)
        (gap_one g 9) in
    let rest = from_offset 1 (g ++ 9 ∷ []) in
    let w : Shows (f ++ ((d ++ 0 ∷ []) ++ rest)) (end_field r).raw_data (seen ++ some d ∷ []) =
      subst (λ x. Shows x (end_field r).raw_data (seen ++ some d ∷ []))
        (append_assoc f (d ++ 0 ∷ []) rest)
        (Shows-more _ rest _ _ (end_field-Shows r n f d g (9 ∷ line v vs) seen h t s)) in
    subst (ReadsTo _) (append_assoc seen (some d ∷ []) (v ∷ vs)) (
      start-ReadsTo fuel more next (end_field r) (suc n) f (d ++ 0 ∷ []) rest v vs
        (seen ++ some d ∷ []) e c cs w l)

-- `\N`, and the tab or the newline behind it.
after_null-ReadsTo :
    (fuel : ℕ) (more : Reader → Result Reader)
    → Reads fuel more
    → (r : Reader) (n : ℕ) (f d g : Bytes) (vs seen : List (Option Bytes))
    → Holds r n f d g (after vs)
    → All IsCell vs
    → Shows f r.raw_data seen
    → length (after vs) ≤ fuel
    → ReadsTo (after_null more r n (after vs)) (seen ++ vs)
unfolding after_null after
after_null-ReadsTo fuel more next r n f d g [] seen h cs s l =
    (r, refl, fields-Shows r f _ _ _ (h.buffer ∙ append_assoc f d _) s ∙ sym (append-nil seen))
after_null-ReadsTo fuel more next r n f d g (v ∷ vs) seen h cs s l =
    start-ReadsTo fuel more next r (suc n) f d (g ++ 9 ∷ []) v vs seen
      (unfold line in skip-Holds r n 9 f d g _ h) cs.0 cs.1 (Shows-more f _ _ _ s)
      (unfold line in omega (arith, l))

pub null-ReadsTo :
    (fuel : ℕ) (more : Reader → Result Reader)
    → Reads fuel more
    → (r : Reader) (n : ℕ) (f d g : Bytes) (vs seen : List (Option Bytes))
    → Holds r n f d g (b'\\' ∷ b'N' ∷ after vs)
    → All IsCell vs
    → Shows f r.raw_data seen
    → length (after vs) ≤ fuel
    → ReadsTo (after_backslash more r (suc n) (from_offset (suc n) r.buffer)) (seen ++ none ∷ vs)
unfolding after_backslash
null-ReadsTo fuel more next r n f d g vs seen h cs s l =
    let k = skip-Holds r n b'\\' f d g _ h in
    let m = skip-Holds r (suc n) b'N' f d (g ++ b'\\' ∷ []) _ k in
    rw (from_offset-Holds r (suc n) f d _ _ k) (
      subst (ReadsTo _) (append_assoc seen (none ∷ []) vs) (
        after_null-ReadsTo fuel more next
          (record r { read = suc (suc n); raw_data = r.raw_data ++ none ∷ [] }) (suc (suc n)) f d _
          vs (seen ++ none ∷ [])
          (record { buffer = m.buffer; begin = m.begin; write = m.write; read = m.read }) cs
          (Shows-last f r.raw_data seen none none s tt) l))

-- An escape sequence.
pub escape-ReadsTo :
    (fuel : ℕ) (more : Reader → Result Reader)
    → Reads fuel more
    → (r : Reader) (n c : ℕ) (f d g s : Bytes) (vs seen : List (Option Bytes))
    → Holds r n f d g (b'\\' ∷ letter c ∷ line (some s) vs)
    → member c controls ≡ true
    → IsText (d ++ c ∷ [])
    → IsText s
    → All IsCell vs
    → Shows f r.raw_data seen
    → length (line (some s) vs) < fuel
    → ReadsTo
        (after_backslash more r (suc n) (from_offset (suc n) r.buffer))
        (seen ++ some ((d ++ c ∷ []) ++ s) ∷ vs)
unfolding after_backslash put
escape-ReadsTo fuel more next r n c f d g s vs seen h m t ts cs w l =
    let k = skip-Holds r n b'\\' f d g _ h in
    let j = skip-Holds r (suc n) (letter c) f d (g ++ b'\\' ∷ []) _ k in
    let e : (letter c == b'N') ≡ false = ground (arith, letter_text c) in
    rw (from_offset-Holds r (suc n) f d _ _ k, e, unescaped-letter c m)
      (next (put (record r { read = suc (suc n) }) c) f (d ++ c ∷ [])
        (from_offset 1 ((g ++ b'\\' ∷ []) ++ letter c ∷ [])) (some s) vs seen
        (put-Holds _ (suc (suc n)) c f d _ _
          (record { buffer = j.buffer; begin = j.begin; write = j.write; read = j.read })
          (gap_one _ (letter c)))
        t ts cs w l)
