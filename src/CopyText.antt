-- ===== src/CopyText.antt =====
-- Reading and writing the text format of COPY: `table_reader::parse_data` of
-- src/lib/pq/table_reader.cpp, and `table_writer_append` of src/lib/pq/parameter_traits.cpp in Write.
pub mod Buffer
pub mod Text
pub mod Shows
pub mod Rounds
pub mod Pieces
pub mod Reads
pub mod Write
pub mod Columns
pub mod Tests
use taopq.Base.{
  ℕ, zero, suc, ◌+◌, Bool, true, false, List, [], ◌∷◌, ◌++◌, Option, none, some, if◌then◌else◌,
  ◌==◌, length, Bytes, break_at, c_str, Result, ok, throw, ◌>>=◌, overrun, diverged,
}

-- The buffer that libpq made, without its terminator, as it is overwritten in place. `read`,
-- `write`, `begin` and the pointers of `m_data` are offsets into it.
pub record Reader : Type 0 where
  pub buffer : Bytes
  pub read : ℕ
  pub write : ℕ
  pub begin : ℕ
  pub raw_data : List (Option ℕ)

-- `buffer + n`.
unfoldable pub from_offset : ℕ → Bytes → Bytes
from_offset zero s = s
from_offset (suc n) [] = []
from_offset (suc n) (c ∷ s) = from_offset n s

-- The bytes are stored at an offset.
unfoldable pub store : ℕ → Bytes → Bytes → Bytes
store zero [] s = s
store zero (b ∷ bs) [] = []
store zero (b ∷ bs) (c ∷ s) = b ∷ store zero bs s
store (suc n) bs [] = []
store (suc n) bs (c ∷ s) = c ∷ store n bs s

-- `std::memmove( write, read, prefix_size ); write += prefix_size;`
unfoldable pub move_prefix : Reader → Bytes → Reader
move_prefix r before = record r {
  buffer = store r.write before r.buffer;
  write = r.write + length before;
}

-- `*write++ = c;`
unfoldable pub put : Reader → ℕ → Reader
put r c = record r { buffer = store r.write (c ∷ []) r.buffer; write = suc r.write }

-- `m_data.emplace_back( begin ); *write++ = '\0';`
unfoldable pub end_field : Reader → Reader
end_field r = put (record r { raw_data = r.raw_data ++ some r.begin ∷ [] }) 0

-- `begin = write = read = ...;`
unfoldable pub start_field : Reader → ℕ → Reader
start_field r n = record r { read = n; write = n; begin = n }

-- The byte that an escape sequence stands for.
unfoldable pub unescaped : ℕ → Option ℕ
unescaped e =
    if e == b'b'
    then some 8
    else if e == b'f'
    then some 12
    else if e == b'n'
    then some 10
    else if e == b'r'
    then some 13
    else if e == b't'
    then some 9
    else if e == b'v'
    then some 11
    else if e == b'\\'
    then some b'\\'
    else none

-- Behind `\N`, where `n` is the offset of the byte behind it, and the list what is there.
unfoldable pub after_null : (Reader → Result Reader) → Reader → ℕ → Bytes → Result Reader
after_null more r n [] = throw overrun
after_null more r n (c ∷ rest) =
    let next = more (start_field r (suc n)) in
    if c == 9 then next else if c == 10 then ok r else throw overrun

-- Behind a backslash, where `n` is the offset of the byte behind it, and the list what is there.
unfoldable pub after_backslash : (Reader → Result Reader) → Reader → ℕ → Bytes → Result Reader
after_backslash more r n [] = throw overrun
after_backslash more r n (e ∷ rest) =
    if e == b'N'
    then after_null more (record r { read = suc n; raw_data = r.raw_data ++ none ∷ [] }) (suc n)
        rest
    else elim (unescaped e) [
      | none ↦ throw overrun
      | some c ↦ more (put (record r { read = suc n }) c)
    ]

-- One round of the loop of `parse_data`: the pair is what `strpbrk` finds, `more` the next round.
-- `TAO_PQ_INTERNAL_UNREACHABLE` is undefined behaviour.
unfoldable pub parse_round : (Reader → Result Reader) → Reader → Bytes × Bytes → Result Reader
parse_round more r (before, []) = throw overrun
parse_round more r (before, c ∷ rest) =
    let moved = move_prefix r before in
    let pos = r.read + length before in
    let next = more (start_field (end_field moved) (suc pos)) in
    if c == 9
    then next
    else if c == b'\\'
    then after_backslash more moved (suc pos) (from_offset (suc pos) moved.buffer)
    else ok (end_field moved)

-- Every round but the last takes at least one byte of the buffer off.
unfoldable pub parse_loop : ℕ → Reader → Result Reader
unfolding break_at parse_round
parse_loop zero r = throw diverged
parse_loop (suc fuel) r =
    parse_round (parse_loop fuel) r
      (break_at (9 ∷ b'\\' ∷ 10 ∷ []) (c_str (from_offset r.read r.buffer)))

-- `none` is the null pointer that is there when the data has ended: `parse_data` returns `false`.
unfoldable pub parse_data : Option Bytes → Result (Option Reader)
parse_data none = ok none
parse_data (some buffer) =
    parse_loop (suc (length buffer))
      (record { buffer = buffer; read = 0; write = 0; begin = 0; raw_data = [] })
    >>= λ r. ok (some r)

-- The C strings that the pointers of `m_data` show.
unfoldable pub fields : Reader → List (Option ℕ) → List (Option Bytes)
fields r [] = []
fields r (none ∷ ps) = none ∷ fields r ps
fields r (some p ∷ ps) = some (c_str (from_offset p r.buffer)) ∷ fields r ps
