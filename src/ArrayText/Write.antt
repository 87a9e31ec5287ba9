-- ===== src/ArrayText/Write.antt =====
-- Writing an array: `array_append` and `table_writer_append` of src/lib/pq/parameter_traits.cpp, and
-- `to_array` of parameter_traits_array.hpp.
use taopq.Base.{
  none, some, ok, ◌>>=◌, c_str, ℕ, zero, suc, List, [], ◌∷◌, ◌++◌, Bytes, codes, bytes_eq, has_any,
  break_at, length, if◌then◌else◌, Option, Result,
}

abbrev pub backslash : ℕ
backslash = b'\\'

abbrev pub quote : ℕ
quote = 34

abbrev pub comma : ℕ
comma = b','

abbrev pub open_brace : ℕ
open_brace = b'{'

abbrev pub close_brace : ℕ
close_brace = b'}'

-- The bytes that stand behind a backslash in a quoted element.
abbrev pub escapes : Bytes
escapes = backslash ∷ quote ∷ []

-- The bytes for which an element is quoted: \ " { } , ; space and tab.
abbrev pub specials : Bytes
specials = backslash ∷ quote ∷ open_brace ∷ close_brace ∷ comma ∷ b';' ∷ 32 ∷ 9 ∷ []

abbrev pub null_text : Bytes
null_text = codes "NULL"

-- One round of the loop: `more` is the next round, the pair is what `find_first_of` finds.
unfoldable pub escape_round : (Bytes → Bytes → Bytes) → Bytes → Bytes → Bytes × Bytes → Bytes
escape_round more buffer text (before, []) = buffer ++ text
escape_round more buffer text (before, c ∷ rest) =
    more (buffer ++ (before ++ backslash ∷ c ∷ [])) rest

-- The loop of `array_append` and of `table_writer_append`: a backslash before each byte of `set`.
-- Every round but the last takes at least one byte of the data off.
unfoldable pub escape_loop : Bytes → ℕ → Bytes → Bytes → Bytes
unfolding break_at escape_round
escape_loop set zero buffer text = buffer
escape_loop set (suc fuel) buffer text =
    escape_round (escape_loop set fuel) buffer text (break_at set text)

unfoldable pub array_append : Bytes → Bytes → Bytes
array_append buffer text =
    if bytes_eq text []
    then buffer ++ quote ∷ quote ∷ []
    else if bytes_eq text null_text
    then buffer ++ (quote ∷ null_text ++ quote ∷ [])
    else if has_any specials text
    then escape_loop escapes (suc (length text)) (buffer ++ quote ∷ []) text ++ quote ∷ []
    else buffer ++ text

-- `*data.rbegin() = c`.
unfoldable pub set_last : ℕ → Bytes → Bytes
set_last c [] = []
set_last c (d ∷ []) = c ∷ []
set_last c (d ∷ e ∷ s) = d ∷ set_last c (e ∷ s)

-- The type of a value: an element, or a container of values of one type.
pub data Shape : Type 0 where
  element : Shape
  array : Shape → Shape

-- What the traits of an element's type give: `parameter_traits< T >::element< 0 >`,
-- `result_traits< T >::from`, and `result_traits< T >::null` where the type has it.
pub record Traits (A : Type 0) : Type 0 where
  pub element : Bytes → A → Bytes
  pub from : Bytes → Result A
  pub null : Option A

-- A container is the sequence of its elements.
abbrev pub Value : Type 0 → Shape → Type 0
Value A Shape.element = A
Value A (array s) = List (Value A s)

-- The loop over a container: each element, and a comma behind it.
unfoldable pub write_elements : {V : Type 0} → (Bytes → V → Bytes) → Bytes → List V → Bytes
write_elements write buffer [] = buffer
write_elements write buffer (v ∷ vs) = write_elements write (write buffer v ++ comma ∷ []) vs

-- One container: the last comma becomes the closing brace.
unfoldable pub write_array : {V : Type 0} → (Bytes → V → Bytes) → Bytes → List V → Bytes
write_array write buffer [] = (buffer ++ open_brace ∷ []) ++ close_brace ∷ []
write_array write buffer (v ∷ vs) =
    set_last close_brace (write_elements write (buffer ++ open_brace ∷ []) (v ∷ vs))

unfoldable pub to_array : {A : Type 0} → Traits A → (s : Shape) → Bytes → Value A s → Bytes
to_array t Shape.element buffer v = t.element buffer v
to_array t (array s) buffer vs = write_array (to_array t s) buffer vs

-- `parameter_traits< T >` of a container: the constructor, and the C string of `value()`.
unfoldable pub parameter_value : {A : Type 0} → Traits A → (s : Shape) → List (Value A s) → Bytes
parameter_value t s vs = c_str (to_array t (array s) [] vs)

-- `parameter_traits< std::string >::element< 0 >` and `result_traits< std::string >::from`.
abbrev pub string_traits : Traits Bytes
string_traits = record { element = array_append; from = ok; null = none }

-- The traits of `std::optional< T >` from those of `T`.
unfoldable pub optional_element : {A : Type 0} → Traits A → Bytes → Option A → Bytes
optional_element t buffer none = buffer ++ null_text
optional_element t buffer (some v) = t.element buffer v

unfoldable pub optional_from : {A : Type 0} → Traits A → Bytes → Result (Option A)
optional_from t value = do v ← t.from value; ok (some v)

abbrev pub optional_traits : {A : Type 0} → Traits A → Traits (Option A)
optional_traits t = record {
  element = optional_element t;
  from = optional_from t;
  null = some none;
}
