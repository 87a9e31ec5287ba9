-- ===== src/Decode/Bytea.antt =====
-- The texts that `unescape_bytea` of src/lib/pq/result_traits.cpp takes.
use taopq.Base.{
  ℕ, suc, ◌+◌, ◌-◌, ◌*◌, ◌/◌, ◌%◌, ◌<◌, ◌≡◌, refl, ap, true, false, ◌&&◌, [], ◌∷◌, if◌then◌else◌,
  ◌==◌, ltb, leb, ◌⊎◌, inl, inr, Bool-cases, All, length, Bytes, ok, throw, invalid_argument, arith,
}
use taopq.Decode.{unhex, unhex_pairs, unescape_bytea}

-- The digit that PostgreSQL writes.
unfoldable pub hex : ℕ → ℕ
hex n = if ltb n 10 then b'0' + n else b'a' + (n - 10)

unfoldable pub hex_text : Bytes → Bytes
hex_text [] = []
hex_text (b ∷ bs) = hex (b / 16) ∷ hex (b % 16) ∷ hex_text bs

-- A value of type bytea in hex format, as PostgreSQL documents it.
unfoldable pub bytea_text : Bytes → Bytes
bytea_text bs = b'\\' ∷ b'x' ∷ hex_text bs

abbrev pub IsByte : ℕ → Type 0
IsByte b = b < 256

unhex-hex : (n : ℕ) → n < 16 → unhex (hex n) ≡ ok n
unfolding unhex hex
unhex-hex n h = ground (arith, h)

unhex-cases :
    (c : ℕ)
    → ((n : ℕ) × (unhex c ≡ ok n) × (n < 16) × (c ≡ hex n)) ⊎ (unhex c ≡ throw invalid_argument)
unfolding unhex hex
unhex-cases c = elim (Bool-cases (leb b'0' c && leb c b'9')) [
  | inl e ↦ inl (c - b'0', ground (arith, e), ground (arith, e), ground (arith, e))
  | inr e ↦ elim (Bool-cases (leb b'a' c && leb c b'f')) [
    | inl f ↦ inl (c - b'a' + 10, ground (arith, e, f), ground (arith, f), ground (arith, f))
    | inr f ↦ inr (rw (e, f) refl)
  ]
]

unhex_pairs-hex_text : (bs : Bytes) → All IsByte bs → unhex_pairs (hex_text bs) ≡ ok bs
unfolding unhex_pairs hex_text
unhex_pairs-hex_text [] h = refl
unhex_pairs-hex_text (b ∷ bs) h =
    rw
      (
        unhex-hex (b / 16) (omega (arith, h.0)),
        unhex-hex (b % 16) (omega arith),
        unhex_pairs-hex_text bs h.1,
      )
      (ap (λ x. ok (x ∷ bs)) (omega (arith, h.0)))

-- A text of whole pairs is the text of bytes, or it is refused.
unhex_pairs-cases :
    (s : Bytes)
    → length s % 2 ≡ 0
    → ((bs : Bytes) × (unhex_pairs s ≡ ok bs) × (s ≡ hex_text bs) × All IsByte bs)
      ⊎ (unhex_pairs s ≡ throw invalid_argument)
unfolding unhex_pairs hex_text
unhex_pairs-cases [] h = inl ([], refl, refl, tt)
unhex_pairs-cases (c ∷ []) h = absurd (omega (arith, h))
unhex_pairs-cases (c ∷ d ∷ s) h =
    pair_cases c d s (unhex-cases c) (unhex-cases d) (unhex_pairs-cases s (omega (arith, h)))
  where
    pair_cases :
        (c d : ℕ) (s : Bytes)
        → ((n : ℕ) × (unhex c ≡ ok n) × (n < 16) × (c ≡ hex n)) ⊎ (unhex c ≡ throw invalid_argument)
        → ((n : ℕ) × (unhex d ≡ ok n) × (n < 16) × (d ≡ hex n)) ⊎ (unhex d ≡ throw invalid_argument)
        → ((bs : Bytes) × (unhex_pairs s ≡ ok bs) × (s ≡ hex_text bs) × All IsByte bs)
          ⊎ (unhex_pairs s ≡ throw invalid_argument)
        → ((bs : Bytes) × (unhex_pairs (c ∷ d ∷ s) ≡ ok bs)
            × (c ∷ d ∷ s ≡ hex_text bs)
            × All IsByte bs)
          ⊎ (unhex_pairs (c ∷ d ∷ s) ≡ throw invalid_argument)
    pair_cases c d s (inr e) y z = inr (rw (e) refl)
    pair_cases c d s (inl (n, e, l, q)) (inr f) z = inr (rw (e, f) refl)
    pair_cases c d s (inl (n, e, l, q)) (inl (m, f, k, r)) (inr g) = inr (rw (e, f, g) refl)
    pair_cases c d s (inl (n, e, l, q)) (inl (m, f, k, r)) (inl (bs, g, t, a)) = inl (
      (n * 16 + m) % 256 ∷ bs,
      rw (e, f, g) refl,
      (let hi : (n * 16 + m) % 256 / 16 ≡ n = omega (arith, l, k) in
          let lo : (n * 16 + m) % 256 % 16 ≡ m = omega (arith, l, k) in rw (hi, lo, q, r, t) refl),
      (omega arith, a),
    )

hex_text_even : (bs : Bytes) → length (hex_text bs) % 2 ≡ 0
unfolding hex_text
hex_text_even [] = omega arith
hex_text_even (b ∷ bs) = omega (arith, hex_text_even bs)

-- The hex text that PostgreSQL documents for bytes, each below 256, is read as these bytes.
pub unescape_bytea-bytea_text :
    (bs : Bytes) → All IsByte bs → unescape_bytea (bytea_text bs) ≡ ok bs
unfolding unescape_bytea bytea_text
unescape_bytea-bytea_text bs h =
    let even : (suc (suc (length (hex_text bs))) % 2 == 1) ≡ false =
      ground (arith, hex_text_even bs) in
    rw (even) (unhex_pairs-hex_text bs h)

prefix_lem : (c d : ℕ) → (c == b'\\' && d == b'x') ≡ true → (c ≡ b'\\') × (d ≡ b'x')
prefix_lem c d e = ground (arith, e)

-- Every text is that of bytes, and these bytes are read, or `invalid_argument` is thrown.
pub unescape_bytea-cases :
    (s : Bytes)
    → ((bs : Bytes) × (unescape_bytea s ≡ ok bs) × (s ≡ bytea_text bs) × All IsByte bs)
      ⊎ (unescape_bytea s ≡ throw invalid_argument)
unfolding unescape_bytea bytea_text
unescape_bytea-cases [] = inr refl
unescape_bytea-cases (c ∷ []) = inr refl
unescape_bytea-cases (c ∷ d ∷ s) = elim (Bool-cases (c == b'\\' && d == b'x')) [
  | inr e ↦ inr (rw (e) refl)
  | inl e ↦ elim (Bool-cases (suc (suc (length s)) % 2 == 1)) [
    | inl o ↦ inr (rw (e, o) refl)
    | inr o ↦ elim (unhex_pairs-cases s (ground (arith, o))) [
      | inr z ↦ inr (rw (e, o, z) refl)
      | inl (bs, z, t, a) ↦
          inl (bs, rw (e, o) z, rw ((prefix_lem c d e).0, (prefix_lem c d e).1, t) refl, a)
    ]
  ]
]
