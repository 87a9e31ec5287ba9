-- ===== src/ArrayText/Element.antt =====
-- `parse_quoted` and `parse_unquoted` on what `array_append` writes.
use taopq.Base.{
  ℕ, zero, suc, ◌<◌, false, [], ◌∷◌, ◌++◌, Bytes, break_at, member, length, length-append,
  if◌then◌else◌, append_assoc, append-nil, ◌≡◌, refl, sym, ap, ◌∙◌, inl, inr, arith, Bool-cases,
  ◌⊎◌, Result, ok, throw, overrun, invalid_argument, ◌==◌,
}
use taopq.ArrayText.Write.{backslash, quote, escapes}
use taopq.ArrayText.Read.{quoted_loop, quoted_round, parse_quoted}
use taopq.ArrayText.Escape.{length-escaped, escaped}

-- A byte in front of what `strpbrk` passes over is copied first.
quoted_round-cons :
    (more : Bytes → Bytes → Result (Bytes × Bytes)) (result : Bytes) (c : ℕ) (r : Bytes × Bytes)
    → quoted_round more result (c ∷ r.0, r.1) ≡ quoted_round more (result ++ c ∷ []) r
unfolding quoted_round
quoted_round-cons more result c (before, []) = refl
quoted_round-cons more result c (before, d ∷ []) =
    ground (arith, append_assoc result (c ∷ []) before)
quoted_round-cons more result c (before, d ∷ e ∷ rest) =
    ground
      (arith, append_assoc result (c ∷ []) before, append_assoc result (c ∷ []) (before ++ e ∷ []))

-- A byte that needs no backslash is copied.
quoted_loop-plain :
    (fuel : ℕ) (result : Bytes) (c : ℕ) (value : Bytes)
    → member c escapes ≡ false
    → quoted_loop (suc fuel) result (c ∷ value) ≡ quoted_loop (suc fuel) (result ++ c ∷ []) value
unfolding quoted_loop
quoted_loop-plain fuel result c value h =
    rw h (quoted_round-cons (quoted_loop fuel) result c (break_at escapes value))

-- A byte behind a backslash is copied, whatever it is.
quoted_loop-backslash :
    (fuel : ℕ) (result : Bytes) (c : ℕ) (value : Bytes)
    → quoted_loop (suc fuel) result (backslash ∷ c ∷ value)
      ≡ quoted_loop fuel (result ++ c ∷ []) value
unfolding quoted_loop
quoted_loop-backslash fuel result c value = refl

quoted_loop-quote :
    (fuel : ℕ) (result rest : Bytes)
    → quoted_loop (suc fuel) result (quote ∷ rest) ≡ ok (result, rest)
quoted_loop-quote fuel result [] = unfold quoted_loop in rw append-nil
quoted_loop-quote fuel result (d ∷ rest) = unfold quoted_loop in rw append-nil

quoted_loop-escaped :
    (s : Bytes) (fuel : ℕ) (result rest : Bytes)
    → length s < fuel
    → quoted_loop fuel result (escaped escapes s ++ quote ∷ rest) ≡ ok (result ++ s, rest)
unfolding escaped
quoted_loop-escaped s zero result rest h = elim h [ ]
quoted_loop-escaped [] (suc fuel) result rest h =
    quoted_loop-quote fuel result rest ∙ ap (λ t. ok (t, rest)) (sym (append-nil result))
quoted_loop-escaped (c ∷ s) (suc fuel) result rest h = elim (Bool-cases (member c escapes)) [
  | inl e ↦ rw e (
      quoted_loop-backslash fuel result c (escaped escapes s ++ quote ∷ rest)
      ∙ quoted_loop-escaped s fuel (result ++ c ∷ []) rest (omega arith)
      ∙ ap (λ t. ok (t, rest)) (append_assoc result (c ∷ []) s))
  | inr e ↦ rw e (
      quoted_loop-plain fuel result c (escaped escapes s ++ quote ∷ rest) e
      ∙ quoted_loop-escaped s (suc fuel) (result ++ c ∷ []) rest (omega arith)
      ∙ ap (λ t. ok (t, rest)) (append_assoc result (c ∷ []) s))
]

escape_cases :
    (c : ℕ)
    → (c ≡ backslash)
      ⊎ ((c ≡ quote)
          ⊎ (((c == backslash) ≡ false) × ((c == quote) ≡ false) × (member c escapes ≡ false)))
unfolding member
escape_cases c = ground arith

-- The scanner that reads one byte at a time: the reference for `parse_quoted`.
unfoldable pub unquote : Bytes → Bytes → Result (Bytes × Bytes)
unquote result [] = throw invalid_argument
unquote result (c ∷ []) =
    if c == backslash
    then throw overrun
    else if c == quote
    then ok (result, [])
    else throw invalid_argument
unquote result (c ∷ d ∷ rest) =
    let plain = unquote (result ++ c ∷ []) (d ∷ rest) in
    let hidden = unquote (result ++ d ∷ []) rest in
    if c == backslash then hidden else if c == quote then ok (result, d ∷ rest) else plain

quoted_loop-unquote :
    (value : Bytes) (fuel : ℕ) (result : Bytes)
    → length value < fuel
    → quoted_loop fuel result value ≡ unquote result value
unfolding unquote
quoted_loop-unquote value zero result h = elim h [ ]
quoted_loop-unquote [] (suc fuel) result h = unfold quoted_loop in refl
quoted_loop-unquote (c ∷ []) (suc fuel) result h = elim (escape_cases c) [
  | inl e ↦ rw e (unfold quoted_loop in refl)
  | inr (inl e) ↦ rw e (quoted_loop-quote fuel result [])
  | inr (inr (a, b, m)) ↦
      rw (a, b) (quoted_loop-plain fuel result c [] m ∙ (unfold quoted_loop in refl))
]
quoted_loop-unquote (c ∷ d ∷ rest) (suc fuel) result h = elim (escape_cases c) [
  | inl e ↦ rw e (
      quoted_loop-backslash fuel result d rest
      ∙ quoted_loop-unquote rest fuel (result ++ d ∷ []) (omega arith))
  | inr (inl e) ↦ rw e (quoted_loop-quote fuel result (d ∷ rest))
  | inr (inr (a, b, m)) ↦
      rw (a, b)
        (quoted_loop-plain fuel result c (d ∷ rest) m
          ∙ quoted_loop-unquote (d ∷ rest) (suc fuel) (result ++ c ∷ []) (omega arith))
]

-- `parse_quoted` reads as the byte by byte scanner does, for every input: it ends, at the first
-- quote that no backslash hides, it takes the byte behind a backslash as it is, and it leaves the
-- input's object exactly where the input ends in a backslash that hides nothing.
pub parse_quoted-unquote : (value : Bytes) → parse_quoted value ≡ unquote [] value
unfolding parse_quoted
parse_quoted-unquote value = quoted_loop-unquote value (suc (length value)) [] (omega arith)

pub parse_quoted-escaped :
    (s rest : Bytes) → parse_quoted (escaped escapes s ++ quote ∷ rest) ≡ ok (s, rest)
unfolding parse_quoted
parse_quoted-escaped s rest =
    quoted_loop-escaped s (suc (length (escaped escapes s ++ quote ∷ rest))) [] rest
      (omega (arith, length-append (escaped escapes s) (quote ∷ rest), length-escaped escapes s))
