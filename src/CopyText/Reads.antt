-- ===== src/CopyText/Reads.antt =====
-- `parse_data` of src/lib/pq/table_reader.cpp reads the lines of COPY TO.
use taopq.Base.{
  ℕ, zero, suc, ◌+◌, ◌<◌, ◌≡◌, refl, ap, sym, ◌∙◌, subst, true, List, [], ◌∷◌, ◌++◌, append_assoc,
  Option, none, some, inl, inr, All, length, length-append, Bytes, IsText, Avoids, break_at,
  break_at-Breaks, break_at_found, member, arith, ok, ◌>>=◌,
}
use taopq.CopyText.{Reader, move_prefix, parse_round, parse_loop, parse_data, fields}
use taopq.CopyText.Buffer.{Holds, move_prefix-Holds}
use taopq.CopyText.Text.{
  controls, stops, Avoids-stops, letter, encoded, encoded-found, cell, after, line, IsCell,
}
use taopq.CopyText.Shows.{Shows}
use taopq.CopyText.Rounds.{ReadsTo, Reads, joined_nil, null-ReadsTo}
use taopq.CopyText.Pieces.{
  seen_text, middle-ReadsTo, parse_loop_found, append-IsText, split-IsText, plain-ReadsTo,
}

line-found :
    (before : Bytes) (c : ℕ) (rest : Bytes) (vs : List (Option Bytes))
    → Avoids controls before
    → member c controls ≡ true
    → line (some (before ++ c ∷ rest)) vs ≡ before ++ b'\\' ∷ letter c ∷ line (some rest) vs
unfolding line cell
line-found before c rest vs a m =
    ap (λ x. x ++ after vs) (encoded-found before c rest a m)
    ∙ append_assoc before (b'\\' ∷ letter c ∷ encoded rest) (after vs)

escaped-ReadsTo :
    (fuel : ℕ)
    → Reads fuel (parse_loop fuel)
    → (r : Reader) (c : ℕ) (f d g s before rest : Bytes) (vs seen : List (Option Bytes))
    → Holds r r.read f d g (line (some s) vs)
    → IsText d
    → IsText s
    → All IsCell vs
    → Shows f r.raw_data seen
    → length (line (some s) vs) < suc fuel
    → s ≡ before ++ c ∷ rest
    → Avoids controls before
    → member c controls ≡ true
    → ReadsTo (parse_loop (suc fuel) r) (seen ++ some (d ++ s) ∷ vs)
escaped-ReadsTo fuel next r c f d g s before rest vs seen h t ts cs w l q a m =
    let tail = b'\\' ∷ letter c ∷ line (some rest) vs in
    let e : line (some s) vs ≡ before ++ tail =
      ap (λ x. line (some x) vs) q ∙ line-found before c rest vs a m in
    let found = seen_text r f d g (some s) vs h ts cs ∙ e in
    let (tb, (tc, tr)) = split-IsText before c rest (subst IsText q ts) in
    rw
      (parse_loop_found fuel r (before, tail)
        (ap (break_at stops) found
          ∙ break_at_found stops before b'\\' (letter c ∷ line (some rest) vs)
              (Avoids-stops before a) (unfold member in refl)))
      (subst (λ x. ReadsTo (parse_round (parse_loop fuel) r (before, tail)) (seen ++ some x ∷ vs))
        (append_assoc (d ++ before) (c ∷ []) rest
          ∙ append_assoc d before (c ∷ rest)
          ∙ ap (◌++◌ d) (sym q))
        (middle-ReadsTo fuel (parse_loop fuel) next r c f d g before rest
          (letter c ∷ line (some rest) vs) vs seen (subst (Holds r r.read f d g) e h) m
          (append-IsText (d ++ before) (c ∷ []) (append-IsText d before t tb) (tc, tt)) tr cs w
          (omega (arith, ap length e, length-append before tail, l))))

-- `\N`.
absent-ReadsTo :
    (fuel : ℕ)
    → Reads fuel (parse_loop fuel)
    → (r : Reader) (f d g : Bytes) (vs seen : List (Option Bytes))
    → Holds r r.read f d g (line none vs)
    → All IsCell vs
    → Shows f r.raw_data seen
    → length (line none vs) < suc fuel
    → ReadsTo (parse_loop (suc fuel) r) (seen ++ none ∷ vs)
absent-ReadsTo fuel next r f d g vs seen h cs w l =
    let e : line none vs ≡ b'\\' ∷ b'N' ∷ after vs = unfold line cell in refl in
    rw
      (parse_loop_found fuel r ([], b'\\' ∷ b'N' ∷ after vs)
        (ap (break_at stops) (seen_text r f d g none vs h tt cs ∙ e)
          ∙ (unfold break_at member in refl)))
      (unfold parse_round move_prefix in
        null-ReadsTo fuel (parse_loop fuel) next (move_prefix r []) (r.read + 0) f (d ++ []) _ vs
          seen (move_prefix-Holds r r.read f d g [] _ (subst (Holds r r.read f d g) e h)) cs w
          (omega (arith, ap length e, l)))

parse_loop-Reads : (fuel : ℕ) → Reads fuel (parse_loop fuel)
parse_loop-Reads zero r f d g w vs seen h t c cs s l = elim l [ ]
parse_loop-Reads (suc fuel) r f d g none vs seen h t c cs s l =
    absent-ReadsTo fuel (parse_loop-Reads fuel) r f d g vs seen h cs s l
parse_loop-Reads (suc fuel) r f d g (some v) vs seen h t c cs s l =
    elim (break_at-Breaks controls v) [
      | inl (e, a) ↦ plain-ReadsTo fuel (parse_loop-Reads fuel) r f d g v vs seen h t c cs s l a
      | inr (before, b, rest, e, q, m, a) ↦
          escaped-ReadsTo fuel (parse_loop-Reads fuel) r b f d g v before rest vs seen h t c cs s l
            q a m
    ]

-- `parse_data` reads a line as COPY TO writes it: its pointers show the values of the columns,
-- null pointers for NULL, and the strings that it decoded in place are not damaged by the later
-- ones. The line has at least one column, and no value has a zero byte.
pub parse_data-line :
    (v : Option Bytes) (vs : List (Option Bytes))
    → IsCell v
    → All IsCell vs
    → (r : Reader) × (parse_data (some (line v vs)) ≡ ok (some r)) × (fields r r.raw_data ≡ v ∷ vs)
unfolding parse_data
parse_data-line v vs c cs =
    let start : Reader = record {
      buffer = line v vs;
      read = 0;
      write = 0;
      begin = 0;
      raw_data = [];
    } in
    let (r, e, q) =
      parse_loop-Reads (suc (length (line v vs))) start [] [] [] v vs []
        (record { buffer = refl; begin = refl; write = refl; read = refl }) tt c cs tt
        (omega arith) in
    (r, ap (λ x. x >>= λ y. ok (some y)) e, q ∙ ap (λ x. x ∷ vs) (joined_nil v))
