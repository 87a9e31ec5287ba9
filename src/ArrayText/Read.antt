-- ===== src/ArrayText/Read.antt =====
-- Reading an array: `parse_quoted` and `parse_unquoted` of src/lib/pq/result_traits_array.cpp, `parse`
-- and `result_traits< T >::from` of result_traits_array.hpp. A C string is the list of its bytes
-- without the terminator, so `*value` is 0 at its end.
use taopq.Base.{
  ℕ, zero, suc, List, [], ◌∷◌, ◌++◌, Bytes, bytes_eq, break_at, length, head_or, if◌then◌else◌,
  ◌==◌, none, some, Result, ok, throw, invalid_argument, overrun, diverged, ◌>>=◌,
}
use taopq.ArrayText.Write.{
  backslash, quote, comma, open_brace, close_brace, escapes, null_text, Shape, array, Traits, Value,
}

-- One round of the loop of `parse_quoted`: the string read so far, and what `strpbrk` finds. A
-- backslash that ends the input makes `*pos++` step over the terminator, and the next search starts
-- behind it.
unfoldable pub quoted_round :
    (Bytes → Bytes → Result (Bytes × Bytes)) → Bytes → Bytes × Bytes → Result (Bytes × Bytes)
quoted_round more result (before, []) = throw invalid_argument
quoted_round more result (before, c ∷ []) =
    if c == backslash then throw overrun else ok (result ++ before, [])
quoted_round more result (before, c ∷ d ∷ rest) =
    if c == backslash
    then more (result ++ (before ++ d ∷ [])) rest
    else ok (result ++ before, d ∷ rest)

unfoldable pub quoted_loop : ℕ → Bytes → Bytes → Result (Bytes × Bytes)
unfolding break_at quoted_round
quoted_loop zero result value = throw diverged
quoted_loop (suc fuel) result value =
    quoted_round (quoted_loop fuel) result (break_at escapes value)

unfoldable pub parse_quoted : Bytes → Result (Bytes × Bytes)
parse_quoted value = quoted_loop (suc (length value)) [] value

abbrev pub ends : Bytes
ends = comma ∷ b';' ∷ close_brace ∷ []

-- What `parse_unquoted` makes of what `strpbrk` finds.
unfoldable pub unquoted_found : Bytes × Bytes → Result (Bytes × Bytes)
unquoted_found (before, []) = throw invalid_argument
unquoted_found (before, c ∷ rest) = ok (before, c ∷ rest)

unfoldable pub parse_unquoted : Bytes → Result (Bytes × Bytes)
unfolding unquoted_found
parse_unquoted value = unquoted_found (break_at ends value)

-- What an unquoted element stands for.
unfoldable pub unquoted_value : {A : Type 0} → Traits A → Bytes → Result A
unquoted_value t input =
    if bytes_eq input null_text
    then elim t.null [ none ↦ throw invalid_argument | some v ↦ ok v ]
    else t.from input

-- `parse< T >` at a type that is not an array.
unfoldable pub parse_element : {A : Type 0} → Traits A → Bytes → Result (A × Bytes)
parse_element t [] = do input ← parse_unquoted []; v ← unquoted_value t input.0; ok (v, input.1)
parse_element t (c ∷ value) =
    if c == quote
    then (do input ← parse_quoted value; v ← t.from input.0; ok (v, input.1))
    else (do input ← parse_unquoted (c ∷ value); v ← unquoted_value t input.0; ok (v, input.1))

-- The `while( true )` loop of a container. Each round reads a separator, so the rounds are at most
-- as many as the bytes.
unfoldable pub parse_items :
    {V : Type 0} → (Bytes → Result (V × Bytes)) → ℕ → List V → Bytes → Result (List V × Bytes)
parse_items parse zero container value = throw diverged
parse_items parse (suc fuel) container value = do
  item ← parse value
  elim item.1 [
    | [] ↦ throw invalid_argument
    | c ∷ rest ↦
        let more = parse_items parse fuel (container ++ item.0 ∷ []) rest in
        if c == comma
        then more
        else if c == b';'
        then more
        else if c == close_brace
        then ok (container ++ item.0 ∷ [], rest)
        else throw invalid_argument
  ]

-- The part of `parse< T >` at an array type behind the opening brace.
unfoldable pub parse_body :
    {V : Type 0} → (Bytes → Result (V × Bytes)) → Bytes → Result (List V × Bytes)
parse_body parse value =
    if head_or 0 value == close_brace
    then ok ([], elim value [ [] ↦ [] | c ∷ rest ↦ rest ])
    else parse_items parse (suc (length value)) [] value

unfoldable pub parse_array :
    {V : Type 0} → (Bytes → Result (V × Bytes)) → Bytes → Result (List V × Bytes)
parse_array parse [] = throw invalid_argument
parse_array parse (c ∷ value) =
    if c == open_brace then parse_body parse value else throw invalid_argument

unfoldable pub parse : {A : Type 0} → Traits A → (s : Shape) → Bytes → Result (Value A s × Bytes)
parse t Shape.element value = parse_element t value
parse t (array s) value = parse_array (parse t s) value

-- `result_traits< T >::from` at an array type.
unfoldable pub from : {A : Type 0} → Traits A → (s : Shape) → Bytes → Result (List (Value A s))
from t s value = do
  container ← parse t (array s) value
  elim container.1 [ [] ↦ ok container.0 | c ∷ rest ↦ throw invalid_argument ]
