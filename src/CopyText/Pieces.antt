-- ===== src/CopyText/Pieces.antt =====
-- The rounds of the loop of `parse_data`, src/lib/pq/table_reader.cpp, on a cell in plain text and at
-- its first escape sequence.
use taopq.Base.{
  ℕ, suc, ◌+◌, ◌≤◌, ◌<◌, ◌≡◌, refl, ap, ◌∙◌, subst, true, List, [], ◌∷◌, ◌++◌, Option, some, All,
  All-append, length, length-append, Bytes, IsText, Avoids, c_str, c_str-IsText, break_at,
  break_at_found, member, arith, Result,
}
use taopq.CopyText.{Reader, from_offset, move_prefix, parse_round, parse_loop}
use taopq.CopyText.Buffer.{Holds, from_offset-Holds, move_prefix-Holds}
use taopq.CopyText.Text.{
  controls, stops, Avoids-stops, letter, encoded-Avoids, cell, after, line, line-IsText, IsCell,
}
use taopq.CopyText.Shows.{Shows}
use taopq.CopyText.Rounds.{ReadsTo, Reads, newline-ReadsTo, tab-ReadsTo, escape-ReadsTo}

-- What `strpbrk` sees.
pub seen_text :
    (r : Reader) (f d g : Bytes) (w : Option Bytes) (vs : List (Option Bytes))
    → Holds r r.read f d g (line w vs)
    → IsCell w
    → All IsCell vs
    → c_str (from_offset r.read r.buffer) ≡ line w vs
seen_text r f d g w vs h c cs =
    ap c_str (from_offset-Holds r r.read f d g (line w vs) h)
    ∙ c_str-IsText (line w vs) (line-IsText w vs c cs)

-- A value is at its end.
end-ReadsTo :
    (fuel : ℕ) (more : Reader → Result Reader)
    → Reads fuel more
    → (r : Reader) (f d g s : Bytes) (vs seen : List (Option Bytes))
    → Holds r r.read f d g (s ++ after vs)
    → IsText (d ++ s)
    → All IsCell vs
    → Shows f r.raw_data seen
    → length (after vs) ≤ fuel
    → ReadsTo (parse_round more r (s, after vs)) (seen ++ some (d ++ s) ∷ vs)
unfolding parse_round after line move_prefix
end-ReadsTo fuel more next r f d g s [] seen h t cs w l =
    newline-ReadsTo (move_prefix r s) (r.read + length s) f (d ++ s) _ seen
      (move_prefix-Holds r r.read f d g s _ h) t w
end-ReadsTo fuel more next r f d g s (v ∷ vs) seen h t cs w l =
    tab-ReadsTo fuel more next (move_prefix r s) (r.read + length s) f (d ++ s) _ v vs seen
      (move_prefix-Holds r r.read f d g s _ h) t cs.0 cs.1 w (omega (arith, l))

-- A value has an escape sequence.
pub middle-ReadsTo :
    (fuel : ℕ) (more : Reader → Result Reader)
    → Reads fuel more
    → (r : Reader) (c : ℕ) (f d g before rest found : Bytes) (vs seen : List (Option Bytes))
    → Holds r r.read f d g (before ++ b'\\' ∷ letter c ∷ line (some rest) vs)
    → member c controls ≡ true
    → IsText ((d ++ before) ++ c ∷ [])
    → IsText rest
    → All IsCell vs
    → Shows f r.raw_data seen
    → length (line (some rest) vs) < fuel
    → ReadsTo
        (parse_round more r (before, b'\\' ∷ found))
        (seen ++ some (((d ++ before) ++ c ∷ []) ++ rest) ∷ vs)
unfolding parse_round move_prefix
middle-ReadsTo fuel more next r c f d g before rest found vs seen h m t ts cs w l =
    escape-ReadsTo fuel more next (move_prefix r before) (r.read + length before) c f (d ++ before)
      _ rest vs seen (move_prefix-Holds r r.read f d g before _ h) m t ts cs w l

pub parse_loop_found :
    (fuel : ℕ) (r : Reader) (found : Bytes × Bytes)
    → break_at stops (c_str (from_offset r.read r.buffer)) ≡ found
    → parse_loop (suc fuel) r ≡ parse_round (parse_loop fuel) r found
unfolding parse_loop
parse_loop_found fuel r found e = ap (parse_round (parse_loop fuel) r) e

after_head :
    (vs : List (Option Bytes))
    → (c : ℕ) × (rest : Bytes) × (after vs ≡ c ∷ rest) × (member c stops ≡ true)
unfolding after member
after_head [] = (10, [], refl, refl)
after_head (v ∷ vs) = (9, cell v ++ after vs, refl, refl)

break_at-after :
    (s : Bytes) (vs : List (Option Bytes))
    → Avoids stops s
    → break_at stops (s ++ after vs) ≡ (s, after vs)
break_at-after s vs a =
    let (c, rest, e, m) = after_head vs in rw (e) (break_at_found stops s c rest a m)

pub append-IsText : (d s : Bytes) → IsText d → IsText s → IsText (d ++ s)
append-IsText d s t ts = All-append _ d s t ts

pub split-IsText :
    (before : Bytes) (c : ℕ) (rest : Bytes)
    → IsText (before ++ c ∷ rest)
    → IsText before × IsText (c ∷ rest)
split-IsText [] c rest t = (tt, t)
split-IsText (b ∷ before) c rest t = let (x, y) = split-IsText before c rest t.1 in ((t.0, x), y)

-- A value that is read to its end.
pub plain-ReadsTo :
    (fuel : ℕ)
    → Reads fuel (parse_loop fuel)
    → (r : Reader) (f d g s : Bytes) (vs seen : List (Option Bytes))
    → Holds r r.read f d g (line (some s) vs)
    → IsText d
    → IsText s
    → All IsCell vs
    → Shows f r.raw_data seen
    → length (line (some s) vs) < suc fuel
    → Avoids controls s
    → ReadsTo (parse_loop (suc fuel) r) (seen ++ some (d ++ s) ∷ vs)
plain-ReadsTo fuel next r f d g s vs seen h t ts cs w l a =
    let e : line (some s) vs ≡ s ++ after vs =
      unfold line cell in ap (λ x. x ++ after vs) (encoded-Avoids s a) in
    let found = seen_text r f d g (some s) vs h ts cs ∙ e in
    rw
      (parse_loop_found fuel r (s, after vs)
        (ap (break_at stops) found ∙ break_at-after s vs (Avoids-stops s a)))
      (end-ReadsTo fuel (parse_loop fuel) next r f d g s vs seen (subst (Holds r r.read f d g) e h)
        (append-IsText d s t ts) cs w (omega (arith, ap length e, length-append s (after vs), l)))
