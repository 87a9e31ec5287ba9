-- ===== src/CopyText/Tests.antt =====
-- A line of COPY TO, and the theorems at it.
use taopq.Base.{
  ◌≡◌, refl, List, [], ◌∷◌, ◌++◌, Option, none, some, Bytes, codes, ok, arith, break_at, member,
  c_str,
}
use taopq.CopyText.{
  Reader, parse_data, parse_loop, parse_round, after_backslash, after_null, unescaped, start_field,
  end_field, put, move_prefix, store, from_offset, fields,
}
use taopq.CopyText.Text.{line, cell, after, encoded, letter}
use taopq.CopyText.Reads.{parse_data-line}

-- The values a, tab, b, NULL, and the empty string.
abbrev first : Option Bytes
first = some (97 ∷ 9 ∷ 98 ∷ [])

abbrev others : List (Option Bytes)
others = none ∷ some [] ∷ []

line_text : line first others ≡ codes "a\\tb" ++ 9 ∷ codes "\\N" ++ 9 ∷ 10 ∷ []
unfolding line cell after encoded letter member
line_text = refl

-- The bytes that are not needed any more stay where they are.
line_parsed :
    parse_data (some (codes "\\\\x" ++ 9 ∷ codes "\\N" ++ 10 ∷ []))
    ≡ ok (
        some (record {
          buffer = 92 ∷ 120 ∷ 0 ∷ 9 ∷ codes "\\N" ++ 10 ∷ [];
          read = 6;
          write = 4;
          begin = 4;
          raw_data = some 0 ∷ none ∷ [];
        }))
unfolding parse_data parse_loop parse_round after_backslash after_null unescaped start_field
    end_field put move_prefix store from_offset break_at member c_str
line_parsed = refl

parse_data-line_example :
    (r : Reader) × (parse_data (some (line first others)) ≡ ok (some r))
    × (fields r r.raw_data ≡ first ∷ others)
parse_data-line_example =
    parse_data-line first others (omega arith, (omega arith, (omega arith, tt))) (tt, (tt, tt))
