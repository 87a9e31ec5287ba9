-- ===== src/Lib.antt =====
-- taoPQ, a C++ client library for PostgreSQL over libpq.
--
-- The program's parts, and the modules that model them:
--   Base: numbers, lists, byte strings, and `Result`, the value or the exception of a call.
--   ArrayText (src/lib/pq/parameter_traits.cpp, src/lib/pq/result_traits_array.cpp,
--     include/tao/pq/parameter_traits_array.hpp, include/tao/pq/result_traits_array.hpp): arrays as
--     text. Write has `array_append` and `to_array`, Read has `parse_quoted`, `parse_unquoted`,
--     `parse` and `from`. Escape, Element, RoundTrip and Nested prove, from bytes up to containers.
--   SqlState (include/tao/pq/exception.hpp, src/lib/pq/exception.cpp): the exception types, one module
--     for each class that has types of its own, and `throw_sqlstate` in Dispatch; LowCases, HighCases
--     and Laws prove.
--   QueryResult (src/lib/pq/result.cpp): `pq::result` over the accessors of libpq.
--   Row (src/lib/pq/row.cpp, src/lib/pq/field.cpp): `pq::row` and `pq::field`; Slices, Names and
--     Fields prove. Typed has `get` of a type, `as`, `optional` and `as_container`
--     (include/tao/pq/row.hpp, include/tao/pq/result.hpp); Cells and Containers prove.
--   IndexScan (include/tao/pq/internal/exclusive_scan.hpp, include/tao/pq/internal/gen.hpp): the index
--     sequences that templates compute; Blocks proves.
--   Convert (include/tao/pq/result_traits.hpp and the traits of optionals, pairs and tuples): how a
--     type is read from a row, over the operations of a row (`RowOps`), which `row` and `table_row` fill
--     in. Reads says what a type reads from cells and what is asked of a row (`Laws`), Rows proves,
--     Tables has whole tables.
--   CopyText (src/lib/pq/table_reader.cpp, include/tao/pq/table_writer.hpp,
--     src/lib/pq/parameter_traits.cpp): COPY in text format. CopyText has `parse_data`, which decodes a
--     line in its buffer, and Write has `insert_indexed`. Text is the format as PostgreSQL documents it
--     for COPY TO, Columns for COPY FROM; Buffer, Shows, Rounds, Pieces and Reads prove.
--   TableRow (src/lib/pq/table_row.cpp, src/lib/pq/table_field.cpp): rows and fields of COPY TO; Reads and
--     Fields prove.
--   TableReader (include/tao/pq/table_reader.hpp, src/lib/pq/table_reader.cpp): the rows of a reader, its
--     iterator and `as_container`; Rows proves, from the lines up to the container.
--   Decode (src/lib/pq/result_traits.cpp, include/tao/pq/internal/from_chars.hpp): `unescape_bytea`,
--     `result_traits< bool >::from` and `from_chars`; Bytea proves.
--   Pool (include/tao/pq/internal/pool.hpp): `pool` with its handles, as steps on all pools and handles;
--     Count, Attached, Ownership and Get prove.
--   Transaction (src/lib/pq/transaction.cpp, src/lib/pq/transaction_base.cpp,
--     include/tao/pq/transaction.hpp, src/lib/pq/connection.cpp): the classes of transactions and the
--     current transaction of a connection. Stack, Conclude and Order show what calls in order do,
--     Misuse the others.
--   Parameter (include/tao/pq/parameter.hpp, include/tao/pq/transaction_base.hpp): the arrays of `parameter`
--     and what `send` hands to libpq; Bind and Send prove.
--   Connection (src/lib/pq/connection.cpp): waiting, results and notifications. Copy has the COPY
--     functions, Query `transaction_base::get_result` (src/lib/pq/transaction_base.cpp), the statuses of
--     results and `check_result` of readers and writers, Tables the rest of writers and the data of
--     readers, Prepared the prepared statements and `execute`, Pipeline pipeline mode and single row mode,
--     Poll the default poll callback (src/lib/pq/internal/poll.cpp). The code is an `Action`, which
--     changes the connection and may throw (Base.Action). Measure, Waits, Ends, Notified, Drained, Modes, Frame,
--     QueryFrame, Names and Identifiers prove.
--
-- How the code is read: a `std::string` is the list of its bytes, a C string the list without its
-- terminator. A `std::size_t` is a number with its wrap-around at 2 ^ 64 written out. An exception is
-- the value `throw e`, without its message. A read outside of an object is `throw overrun`, and
-- an assertion of result.hpp or result.cpp that a result has a column is `asserted`.
-- A value's type in an array is a `Shape`, whose elements have `Traits`; containers are sequences.
--
-- Loops over text take fuel: one round more than the text has bytes. Each round but the last takes a
-- byte off, so the fuel is enough; a loop without fuel gives `throw diverged`. The loop over the lines of
-- a reader has two rounds more than there are lines. The loops of a connection wait for the server:
-- each has the fuel `limit`, and Connection.Measure and Connection.Ends say how much of it is enough:
-- it depends on the bytes, signals and notifications that are still to come.
--
-- libpq is a parameter: `PgResult` for results, with what its documentation says of `PQfnumber` as the
-- record `IsFirst`, and `Libpq` for connections, with the poll callback. The handlers of notifications are
-- called, which is recorded; what they do is not modelled. The traits of a scalar are a parameter.
--
-- The calls of a pool are atomic, as its mutex and its atomic counter make their parts; threads are not
-- interleaved. What the server answers to a statement of a transaction, whether `v_create` throws and
-- what `v_is_valid` says are arguments of each call.
--
-- Not modelled: the messages of exceptions, logging, the network, the iterators of results and rows,
-- the class `pipeline`, large objects, aggregates, and the parts that no module above names. `Transaction` and
-- `Connection` are two views of a connection: the first has the order of its transactions, the second
-- what is sent and received, where `in_use` says whether a transaction is current.
pub mod Base
pub mod ArrayText
pub mod SqlState
pub mod QueryResult
pub mod Row
pub mod IndexScan
pub mod Convert
pub mod CopyText
pub mod TableRow
pub mod TableReader
pub mod Decode
pub mod Parameter
pub mod Pool
pub mod Transaction
pub mod Connection
