-- ===== src/CopyText/Write.antt =====
-- Writing the text format of COPY: `table_writer_append` of src/lib/pq/parameter_traits.cpp, and
-- `table_writer::insert` of include/tao/pq/table_writer.hpp for columns that are text or null.
use taopq.Base.{suc, List, [], ◌∷◌, ◌++◌, Option, none, some, length, Bytes, codes}
use taopq.ArrayText.Write.{escape_loop, set_last}

abbrev pub copy_specials : Bytes
copy_specials = 8 ∷ 12 ∷ 10 ∷ 13 ∷ 9 ∷ 11 ∷ b'\\' ∷ []

unfoldable pub table_writer_append : Bytes → Bytes → Bytes
table_writer_append buffer text = escape_loop copy_specials (suc (length text)) buffer text

-- `copy_to` of a null and of a text.
unfoldable pub copy_to : Bytes → Option Bytes → Bytes
copy_to buffer none = buffer ++ codes "\\N"
copy_to buffer (some text) = table_writer_append buffer text

-- The fold of `insert_indexed`.
unfoldable pub insert_columns : Bytes → List (Option Bytes) → Bytes
insert_columns buffer [] = buffer
insert_columns buffer (v ∷ vs) = insert_columns (copy_to buffer v ++ 9 ∷ []) vs

-- What `insert_indexed` hands to `insert_raw`.
unfoldable pub insert_indexed : List (Option Bytes) → Bytes
insert_indexed vs = set_last 10 (insert_columns [] vs)
