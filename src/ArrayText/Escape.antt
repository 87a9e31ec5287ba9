-- ===== src/ArrayText/Escape.antt =====
-- What the loop of `array_append` writes, byte by byte, and what `array_append` appends.
use taopq.Base.{
  ◌≢◌, ◌⊎◌, bytes_eq_sound, bytes_eq_refl, ◌≤◌, ℕ, zero, suc, ◌<◌, true, false, [], ◌∷◌, ◌++◌,
  Bytes, IsText, Avoids, All-append, break_at-Breaks, bytes_eq, has_any, member, length,
  length-append, if◌then◌else◌, append_assoc, ◌≡◌, refl, sym, ap, ◌∙◌, inl, inr, arith, Bool-cases,
}
use taopq.ArrayText.Write.{
  backslash, quote, close_brace, escapes, specials, null_text, escape_loop, array_append,
}

-- One byte with its backslash, where it needs one.
unfoldable pub escaped_byte : Bytes → ℕ → Bytes
escaped_byte set c = if member c set then backslash ∷ c ∷ [] else c ∷ []

unfoldable pub escaped : Bytes → Bytes → Bytes
unfolding escaped_byte
escaped set [] = []
escaped set (c ∷ s) = escaped_byte set c ++ escaped set s

escaped-Avoids : (set s : Bytes) → Avoids set s → escaped set s ≡ s
unfolding escaped
escaped-Avoids set [] h = refl
escaped-Avoids set (c ∷ s) h = ground (arith, escaped-Avoids set s h.1)

escaped-append : (set s t : Bytes) → escaped set (s ++ t) ≡ escaped set s ++ escaped set t
unfolding escaped
escaped-append set [] t = refl
escaped-append set (c ∷ s) t = rw (escaped-append set s t, append_assoc)

escaped-found :
    (set before : Bytes) (c : ℕ) (rest : Bytes)
    → Avoids set before
    → member c set ≡ true
    → escaped set (before ++ c ∷ rest) ≡ (before ++ backslash ∷ c ∷ []) ++ escaped set rest
unfolding escaped
escaped-found set before c rest h m =
    rw (escaped-append set before (c ∷ rest), escaped-Avoids set before h, append_assoc)
      (ap (◌++◌ before) (ground arith))

-- With more fuel than bytes the loop appends each byte, behind a backslash where it is in the set.
pub escape_loop-escaped :
    (set : Bytes) (fuel : ℕ) (buffer text : Bytes)
    → length text < fuel
    → escape_loop set fuel buffer text ≡ buffer ++ escaped set text
unfolding escape_loop
escape_loop-escaped set zero buffer text h = elim h [ ]
escape_loop-escaped set (suc fuel) buffer text h = elim (break_at-Breaks set text) [
  | inl (e, a) ↦ rw (e, escape_loop) (ap (◌++◌ buffer) (sym (escaped-Avoids set text a)))
  | inr (before, c, rest, e, t, m, a) ↦
      rw (e, escape_loop)
        (escape_loop-escaped set fuel (buffer ++ (before ++ backslash ∷ c ∷ [])) rest
            (omega (arith, ap length t, length-append before (c ∷ rest), h))
          ∙ append_assoc buffer (before ++ backslash ∷ c ∷ []) (escaped set rest)
          ∙ ap (◌++◌ buffer) (sym (escaped-found set before c rest a m) ∙ ap (escaped set) (sym t)))
]

-- What `array_append` writes for an element.
unfoldable pub element_text : Bytes → Bytes
element_text text =
    if bytes_eq text []
    then quote ∷ quote ∷ []
    else if bytes_eq text null_text
    then quote ∷ null_text ++ quote ∷ []
    else if has_any specials text
    then quote ∷ escaped escapes text ++ quote ∷ []
    else text

pub array_append-element_text :
    (buffer text : Bytes) → array_append buffer text ≡ buffer ++ element_text text
unfolding array_append element_text
array_append-element_text buffer text = ground (
  arith,
  escape_loop-escaped escapes (suc (length text)) (buffer ++ quote ∷ []) text,
  append_assoc buffer (quote ∷ []) (escaped escapes text ++ quote ∷ []),
  append_assoc (buffer ++ quote ∷ []) (escaped escapes text) (quote ∷ []),
)

escaped-IsText : (set s : Bytes) → IsText s → IsText (escaped set s)
unfolding escaped
escaped-IsText set [] h = tt
escaped-IsText set (c ∷ s) h = ground (arith, escaped-IsText set s h.1)

pub has_any-Avoids : (set s : Bytes) → has_any set s ≡ false → Avoids set s
unfolding has_any
has_any-Avoids set [] h = tt
has_any-Avoids set (c ∷ s) h = (ground arith, has_any-Avoids set s (ground arith))

-- An element is written in quotes, or as it is.
pub element_text-cases :
    (s : Bytes)
    → (element_text s ≡ quote ∷ escaped escapes s ++ quote ∷ [])
      ⊎ ((element_text s ≡ s) × (s ≢ []) × (bytes_eq s null_text ≡ false) × Avoids specials s)
unfolding element_text
element_text-cases s = elim (Bool-cases (bytes_eq s [])) [
  | inl e ↦ inl (rw (e, bytes_eq_sound s [] e) (unfold escaped in refl))
  | inr e ↦ elim (Bool-cases (bytes_eq s null_text)) [
    | inl f ↦ inl (rw (e, f, bytes_eq_sound s null_text f) (unfold escaped member in refl))
    | inr f ↦ elim (Bool-cases (has_any specials s)) [
      | inl g ↦ inl (rw (e, f, g))
      | inr g ↦ inr (
        rw (e, f, g) refl,
        (λ n. cc (ap (λ u. bytes_eq u []) n, bytes_eq_refl [])),
        f,
        has_any-Avoids specials s g,
      )
    ]
  ]
]

pub element_text-IsText : (s : Bytes) → IsText s → IsText (element_text s)
element_text-IsText s h = elim (element_text-cases s) [
  | inl e ↦ rw e (
    omega arith,
    All-append _ (escaped escapes s) (quote ∷ []) (escaped-IsText escapes s h) (omega arith),
  )
  | inr plain ↦ rw (plain.0) h
]

pub length-escaped : (set s : Bytes) → length s ≤ length (escaped set s)
unfolding escaped
length-escaped set [] = omega arith
length-escaped set (c ∷ s) = ground (arith, length-escaped set s)

special-ne : (c : ℕ) → member c specials ≡ false → c ≢ close_brace
unfolding member
special-ne c h = ground arith

-- An element's text is not empty, and does not look like the end of an array.
pub element_text-nonempty :
    (s : Bytes) → (c : ℕ) × (cs : Bytes) × (element_text s ≡ c ∷ cs) × (c ≢ close_brace)
element_text-nonempty s = elim (element_text-cases s) [
  | inl e ↦ (quote, escaped escapes s ++ quote ∷ [], e, omega arith)
  | inr (e, n, f, a) ↦ plain s e n a
]
  where
    plain :
        (u : Bytes)
        → element_text s ≡ u
        → u ≢ []
        → Avoids specials u
        → (c : ℕ) × (cs : Bytes) × (element_text s ≡ c ∷ cs) × (c ≢ close_brace)
    plain [] e n a = absurd (n refl)
    plain (c ∷ cs) e n a = (c, cs, e, special-ne c a.0)
