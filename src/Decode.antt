-- ===== src/Decode.antt =====
-- The conversions of single values: src/lib/pq/result_traits.cpp, for `bytea` and `bool`, and
-- include/tao/pq/internal/from_chars.hpp with `std::from_chars` as a parameter.
pub mod Bytea
pub mod Tests
use taopq.Base.{
  ℕ, suc, ◌+◌, ◌-◌, ◌*◌, ◌%◌, Bool, true, false, ◌&&◌, [], ◌∷◌, if◌then◌else◌, ◌==◌, leb, length,
  Bytes, Result, ok, throw, ◌>>=◌, invalid_argument, runtime_error, out_of_range,
}

unfoldable pub unhex : ℕ → Result ℕ
unhex c =
    if leb b'0' c && leb c b'9'
    then ok (c - b'0')
    else if leb b'a' c && leb c b'f'
    then ok (c - b'a' + 10)
    else throw invalid_argument

-- The loop over the text behind `\x`, two bytes a round; a byte that is left over is not read. As
-- `low` is below 16, `|` is the sum.
unfoldable pub unhex_pairs : Bytes → Result Bytes
unhex_pairs [] = ok []
unhex_pairs (c ∷ []) = ok []
unhex_pairs (c ∷ d ∷ rest) =
    let more = unhex_pairs rest in
    unhex c >>= λ high. unhex d >>= λ low. more >>= λ bytes. ok ((high * 16 + low) % 256 ∷ bytes)

unfoldable pub unescape_bytea : Bytes → Result Bytes
unescape_bytea [] = throw invalid_argument
unescape_bytea (c ∷ []) = throw invalid_argument
unescape_bytea (c ∷ d ∷ rest) =
    if c == b'\\' && d == b'x'
    then (if suc (suc (length rest)) % 2 == 1 then throw invalid_argument else unhex_pairs rest)
    else throw invalid_argument

unfoldable pub bool_from : Bytes → Result Bool
bool_from (c ∷ []) =
    if c == b't' then ok true else if c == b'f' then ok false else throw runtime_error
bool_from [] = throw runtime_error
bool_from (c ∷ d ∷ rest) = throw runtime_error

-- `std::errc` of `std::from_chars`: none, `invalid_argument` and `result_out_of_range`.
pub data Errc : Type 0 where
  no_error invalid_text too_large : Errc

-- What `std::from_chars` gives: the value, the text behind what it took, and the error.
pub record FromChars (T : Type 0) : Type 0 where
  pub value : T
  pub rest : Bytes
  pub ec : Errc

unfoldable pub from_chars : {T : Type 0} → (Bytes → FromChars T) → Bytes → Result T
from_chars std s =
    let r = std s in
    elim r.ec [
      | no_error ↦ elim r.rest [ [] ↦ ok r.value | c ∷ rest ↦ throw invalid_argument ]
      | invalid_text ↦ throw invalid_argument
      | too_large ↦ throw out_of_range
    ]
