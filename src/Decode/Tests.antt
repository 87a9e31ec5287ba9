-- ===== src/Decode/Tests.antt =====
-- Conversions of single values, and the theorem on `bytea` at one.
use taopq.Base.{
  ◌≡◌, refl, [], ◌∷◌, codes, All, Bytes, ◌⊎◌, ok, throw, runtime_error, invalid_argument, arith,
}
use taopq.Decode.{unhex, unhex_pairs, unescape_bytea, bool_from}
use taopq.Decode.Bytea.{bytea_text, IsByte, unescape_bytea-bytea_text, unescape_bytea-cases}

upper_case : unescape_bytea (codes "\\xAB") ≡ throw invalid_argument
unfolding unescape_bytea unhex_pairs unhex
upper_case = refl

bool_text : bool_from (codes "true") ≡ throw runtime_error
unfolding bool_from
bool_text = refl

unescape_bytea-bytea_text_example : unescape_bytea (bytea_text (0 ∷ 255 ∷ [])) ≡ ok (0 ∷ 255 ∷ [])
unescape_bytea-bytea_text_example =
    unescape_bytea-bytea_text (0 ∷ 255 ∷ []) (omega arith, (omega arith, tt))

unescape_bytea-cases_example :
    ((bs : Bytes) × (unescape_bytea (codes "\\x0g") ≡ ok bs)
      × (codes "\\x0g" ≡ bytea_text bs)
      × All IsByte bs)
    ⊎ (unescape_bytea (codes "\\x0g") ≡ throw invalid_argument)
unescape_bytea-cases_example = unescape_bytea-cases (codes "\\x0g")
