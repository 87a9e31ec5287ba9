-- ===== src/CopyText/Columns.antt =====
-- How PostgreSQL documents that it reads a line of COPY FROM in text format, and that it finds the
-- columns which `table_writer::insert` wrote.
use taopq.Base.{List, [], ◌∷◌, ◌++◌, Option, none, some, if◌then◌else◌, ◌==◌, Bytes, codes, member}
use taopq.ArrayText.Escape.{escaped}
use taopq.CopyText.Write.{copy_specials}

-- Where in a line the server is: in a value, behind a backslash in a value, or behind `\N`.
pub data Place : Type 0 where
  value escape : Bytes → Place
  absent : Place

pub column : Option Bytes → Option (List (Option Bytes)) → Option (List (Option Bytes))
column v none = none
column v (some vs) = some (v ∷ vs)

-- The end of the line.
pub last_column : Option Bytes → Bytes → Option (List (Option Bytes))
last_column v [] = some (v ∷ [])
last_column v (c ∷ s) = none

-- A backslash takes the special meaning from the byte behind it, but for the letters and digits
-- that begin a longer sequence, which are not read here.
unfoldable pub scan : Place → Bytes → Option (List (Option Bytes))
scan p [] = none
scan (value seen) (c ∷ s) =
    let next = column (some seen) (scan (value []) s) in
    let behind = scan (escape seen) s in
    let more = scan (value (seen ++ c ∷ [])) s in
    if c == 9
    then next
    else if c == 10
    then last_column (some seen) s
    else if c == b'\\'
    then behind
    else more
scan (escape seen) (c ∷ s) =
    let null = scan absent s in
    let more = scan (value (seen ++ c ∷ [])) s in
    if c == b'N' then null else if member c (codes "bfnrtvx01234567") then none else more
scan absent (c ∷ s) =
    let next = column none (scan (value []) s) in
    if c == 9 then next else if c == 10 then last_column none s else none

-- What `copy_to` appends.
abbrev pub cell_text : Option Bytes → Bytes
cell_text none = codes "\\N"
cell_text (some s) = escaped copy_specials s

-- The text of all columns, with a tab behind each, and as a line.
cells : List (Option Bytes) → Bytes
cells [] = []
cells (v ∷ vs) = cell_text v ++ 9 ∷ cells vs

lined : Option Bytes → List (Option Bytes) → Bytes
lined v [] = cell_text v ++ 10 ∷ []
lined v (w ∷ ws) = cell_text v ++ 9 ∷ lined w ws
