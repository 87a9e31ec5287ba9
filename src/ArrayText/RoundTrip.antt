-- ===== src/ArrayText/RoundTrip.antt =====
-- Reading back what was written: elements, then containers of any depth.
use taopq.Base.{
  codes, ℕ, true, false, [], ◌∷◌, ◌++◌, Bytes, Avoids, break_at_found, bytes_eq, member,
  append_assoc, ◌≡◌, ◌≢◌, refl, ◌∙◌, inl, inr, arith, ok, ◌>>=◌, some,
}
use taopq.ArrayText.Write.{quote, escapes, specials, null_text, Traits}
use taopq.ArrayText.Read.{ends, parse_quoted, parse_unquoted, unquoted_value, parse_element}
use taopq.ArrayText.Escape.{escaped, element_text, element_text-cases}
use taopq.ArrayText.Element.{parse_quoted-escaped}

-- An element that needs no quotes holds none of the bytes at which an unquoted element ends.
Avoids-ends : (s : Bytes) → Avoids specials s → Avoids ends s
Avoids-ends [] h = tt
Avoids-ends (c ∷ s) h = (unfold member in ground arith, Avoids-ends s h.1)

parse_unquoted-append :
    (s : Bytes) (d : ℕ) (rest : Bytes)
    → Avoids ends s
    → member d ends ≡ true
    → parse_unquoted (s ++ d ∷ rest) ≡ ok (s, d ∷ rest)
unfolding parse_unquoted
parse_unquoted-append s d rest h m = rw (break_at_found ends s d rest h m)

module _ {A : Type 0} (t : Traits A) where
  parse_element-quoted :
      (value input rest : Bytes)
      → parse_quoted value ≡ ok (input, rest)
      → parse_element t (quote ∷ value) ≡ (t.from input >>= λ v. ok (v, rest))
  unfolding parse_element
  parse_element-quoted value input rest e = rw (e, parse_element)

  parse_element-unquoted :
      (c : ℕ) (s rest : Bytes)
      → c ≢ quote
      → parse_unquoted (c ∷ s ++ rest) ≡ ok (c ∷ s, rest)
      → parse_element t (c ∷ s ++ rest) ≡ (unquoted_value t (c ∷ s) >>= λ v. ok (v, rest))
  unfolding parse_element
  parse_element-unquoted c s rest n e = ground arith

  parse_element-plain :
      (s : Bytes) (d : ℕ) (rest : Bytes)
      → member d ends ≡ true
      → s ≢ []
      → bytes_eq s null_text ≡ false
      → Avoids specials s
      → parse_element t (s ++ d ∷ rest) ≡ (t.from s >>= λ v. ok (v, d ∷ rest))
  parse_element-plain [] d rest m n f a = absurd (n refl)
  parse_element-plain (c ∷ s) d rest m n f a =
      parse_element-unquoted c s (d ∷ rest) (unfold member in ground arith)
        (parse_unquoted-append (c ∷ s) d rest (Avoids-ends (c ∷ s) a) m)
      ∙ (unfold unquoted_value in rw f)

  -- The unquoted text of a null element.
  pub parse_element_null :
      (v : A) (d : ℕ) (rest : Bytes)
      → t.null ≡ some v
      → member d ends ≡ true
      → parse_element t (null_text ++ d ∷ rest) ≡ ok (v, d ∷ rest)
  parse_element_null v d rest e m =
      parse_element-unquoted b'N' (codes "ULL") (d ∷ rest) (omega arith) (
        parse_unquoted-append null_text d rest (unfold member in (refl, (refl, (refl, (refl, tt)))))
          m)
      ∙ (unfold unquoted_value bytes_eq in rw e)

  -- What `array_append` writes is read as one call of `from` on the text that was written.
  pub parse_element-element_text :
      (s : Bytes) (d : ℕ) (rest : Bytes)
      → member d ends ≡ true
      → parse_element t (element_text s ++ d ∷ rest) ≡ (t.from s >>= λ v. ok (v, d ∷ rest))
  parse_element-element_text s d rest m = elim (element_text-cases s) [
    | inl e ↦
        rw (e, append_assoc (escaped escapes s) (quote ∷ []) (d ∷ rest))
          (parse_element-quoted (escaped escapes s ++ quote ∷ d ∷ rest) s (d ∷ rest)
            (parse_quoted-escaped s (d ∷ rest)))
    | inr (e, n, f, a) ↦ rw e (parse_element-plain s d rest m n f a)
  ]
