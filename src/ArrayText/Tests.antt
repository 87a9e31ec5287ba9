-- ===== src/ArrayText/Tests.antt =====
-- Runs of the array text code, and its theorems at concrete inputs.
use taopq.Base.{
  List, [], ◌∷◌, Bytes, codes, ◌≡◌, refl, inl, inr, some, none, ok, throw, overrun,
  invalid_argument, c_str, break_at, bytes_eq, has_any, member, arith,
}
use taopq.ArrayText.Write.{
  Shape, array, to_array, write_array, write_elements, set_last, array_append, escape_loop,
  parameter_value, string_traits, optional_traits, optional_element, optional_from,
}
use taopq.ArrayText.Read.{
  from, parse, parse_array, parse_body, parse_items, parse_element, parse_quoted, quoted_loop,
  parse_unquoted, unquoted_value,
}
use taopq.ArrayText.Element.{parse_quoted-unquote, unquote}
use taopq.ArrayText.Nested.{from-parameter_value}

abbrev words : List Bytes
words = codes "a" ∷ [] ∷ codes "NULL" ∷ codes "x,y" ∷ codes "p\"q\\" ∷ []

words_text :
    parameter_value string_traits Shape.element words
    ≡ codes "{a,\"\",\"NULL\",\"x,y\",\"p\\\"q\\\\\"}"
unfolding parameter_value to_array write_array write_elements set_last array_append escape_loop
    break_at member bytes_eq has_any c_str
words_text = refl

words_back :
    from string_traits Shape.element (codes "{a;\"b\\\"\",c}")
    ≡ ok (codes "a" ∷ codes "b\"" ∷ codes "c" ∷ [])
unfolding from parse parse_array parse_body parse_items parse_element parse_quoted quoted_loop
    parse_unquoted unquoted_value break_at member bytes_eq
words_back = refl

trailing_text : from string_traits Shape.element (codes "{a}b") ≡ throw invalid_argument
unfolding from parse parse_array parse_body parse_items parse_element parse_quoted quoted_loop
    parse_unquoted unquoted_value break_at member bytes_eq
trailing_text = refl

-- A backslash that ends the text of a quoted element.
stray_backslash : from string_traits Shape.element (codes "{\"a\\") ≡ throw overrun
unfolding from parse parse_array parse_body parse_items parse_element parse_quoted quoted_loop
    parse_unquoted unquoted_value break_at member bytes_eq
stray_backslash = refl

parse_quoted-unquote_example : parse_quoted (codes "a\\\"b\",c") ≡ unquote [] (codes "a\\\"b\",c")
parse_quoted-unquote_example = parse_quoted-unquote (codes "a\\\"b\",c")

from-parameter_value_example :
    from (optional_traits string_traits) (array Shape.element) (
      parameter_value
        (optional_traits string_traits)
        (array Shape.element)
        ((some (codes "a,b") ∷ none ∷ []) ∷ [] ∷ []))
    ≡ ok ((some (codes "a,b") ∷ none ∷ []) ∷ [] ∷ [])
unfolding optional_element optional_from
from-parameter_value_example =
    from-parameter_value (optional_traits string_traits) (array Shape.element)
      ((some (codes "a,b") ∷ none ∷ []) ∷ [] ∷ [])
      ((inl (codes "a,b", omega arith, (λ b. refl), refl), (inr ((λ b. refl), refl), tt)), (tt, tt))
