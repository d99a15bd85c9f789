-- ===== src/Lib.antt =====
-- dbcppp-tiny reads CAN databases (DBC files) and decodes the signals of CAN frames. This is a
-- model of its way from a file to the physical values: the readers, the lexer, the two parsers, the
-- conversion of the syntax tree to the network of objects, the iterators over it, and the decoding.
--
-- The parts and how they interact. `LoadNetworkFromFile` reads a file line by line
-- (src/file_reader.h); the parser (src/dbc_parser.h, on src/dbc_lexer.h) builds a syntax tree;
-- `DBCAST2Network` and `DBCAST2NetworkFiltered` (src/dbcast2network.cpp) convert it to a
-- `NetworkImpl` of `MessageImpl`s of `SignalImpl`s; a client asks a signal to `Decode` a frame and
-- to turn the raw word into a physical value. A second parser (src/dbc_stream_parser.h) builds a
-- syntax tree line by line, from a file or a text behind one interface; the loading functions do
-- not use it.
--
-- Which file models which part:
--   Common     helpers: Boolean tests, lists, 64-bit words, binary digits.
--   Objects    the small objects: src/attribute_impl.cpp, src/node_impl.cpp, src/value_table_impl.cpp
--              and their like. A constructor takes and keeps its arguments, so an object is the
--              record, and a getter is the field.
--   Signal     src/signal_impl.cpp, src/signal_impl.h and src/helper.h. Types: the enumerations and
--              the state. Layout: masks, shifts, byte position and alignment (`layout`, `place`,
--              `split`). Decode: `template_decode`, whose template arguments are arguments. Dispatch:
--              `enum_mask` and `make_decode`. Errors: the checks, `SetError` and `Error`. Object: the
--              constructor (`create_signal`) and `Decode` (`decode_signal`). Physical: `RawToPhys`.
--              Meaning: what the bits of a signal mean, independent of the code. Correct, Whole,
--              Limits: the proofs.
--   Message    src/message_impl.cpp: the constructor, the copies. Mux: what they find.
--   Ast        the syntax tree of src/dbcast.h.
--   Network    src/network_impl.cpp: the record that `INetwork::Create` builds, and
--              `ParentMessage`, in which the address of a signal is its message's index and its
--              place there. Parent: what it finds.
--   Convert    src/dbcast2network.cpp. Cache: the caches, and the loops that build them. Objects,
--              Signals, Messages, Definitions: the getters `getX`, under the name `x`. Whole: the two
--              conversions. Scanned, Filtered, Total,
--              Decoding: the proofs.
--   Lexer      src/dbc_lexer.h. Types: the tokens. Cursor: the text from `pos_` on with the line and
--              the column, `advance`, blanks and comments. Readers, Keywords: `readNumber`,
--              `readString` and `readIdentifier`. Tokenize: `tokenize`. Moves, Reads, Progress,
--              Total, Strings, RoundTrip: the proofs.
--   Parser     src/dbc_parser.h, on src/dbc_parser_result.h. Result: errors and results. Numbers:
--              `std::stoull` and its like. Basic: `current`, `advance`, `expect`, and the steps that
--              the parse functions repeat. Header, Signals, SignalTypes, Comments, Attributes,
--              Values: `parseX` as `parse_x`, with a helper for each part of a long one. Whole:
--              `parse`. Sound, Bounds, RoundTrip: the proofs.
--   Reader     src/file_reader.h. File: `readLine` of `FileLineReader` on the bytes of a file, and
--              the loop of `LoadDBCFromFile` over the lines. Memory: `StringLineReader`, with what it
--              gives. Adapters: `ILineReader` as the record `LineReader`, `FileLineReader` with its
--              file and its line number, and the two adapters. Lines, Total: the proofs.
--   Stream     src/dbc_stream_parser.h. Text: the helpers on strings. State: `current_message_`, the
--              network and `Result<void>`. Statements, Attributes, Signals: `parseX` as `parse_x`,
--              with a helper for each part of a long one. Route: `parseStatement`. Whole: `parse` (a
--              round of its loop is `step`), `parseFile` and `parseString`. Lines, Posts, Runs, Ends,
--              Files, Symbols, NewSymbols, Agrees, Texts, Bars, Misread: the proofs.
--   Iterator   include/dbcppp-tiny/iterator.h: the operators, and `visit_all` for a loop over an
--              `Iterable`. Views: `X_Get`, `X_Size` and `X()` of networks, messages and signals.
--              Walk: the proofs.
--   Load       `LoadDBCFromFile` and `LoadDBCFromString` of src/dbcast2network.cpp,
--              `LoadNetworkFromFile` of src/network_impl.cpp. Cases, Defined: the proofs.
--   Tests      runs on small inputs.
--
-- Conventions. A `uint64_t` is a number below 2 ^ 64, with the wrap-around of each operation
-- written out. `none` is undefined behaviour: a shift by 64 places or more, a load outside the
-- buffer, or the conversion of a `double` that does not fit `int64_t`. The byte order of the machine is a parameter, and so are the floating point numbers:
-- `DoubleOps` and `DoubleConversion` name the conversions and the arithmetic that the code uses. A
-- pointer into a vector is an index, an `unordered_map` is a function into `Option`. A text is the
-- list of its bytes, from 0 to 255, and the character classes are those of the C locale. A parse
-- function maps the tokens from `pos_` on to a result and the tokens left; `thrown` is an exception
-- of `std::stoull` and its like, `std::stod` and the negation of a `double` are parameters
-- (`DoubleReader`), and a field that the source leaves without a value is 0 or empty; in the parser
-- by lines such a field of a signal is a parameter (`Storage`). The file system is a parameter, from
-- a file name to the bytes of a file that can be opened. The pointer `current_message_` is null,
-- the index of the message that was the last when it was set, or stale, which is what it is for the
-- next parse of the same object (`left_behind`). It leads into the network as long as no message is
-- added behind that one, since that may move them all; a write through a pointer that does not is
-- the result `elsewhere`.
--
-- Most loops run over lists. The others have fuel: `tokenize` one round for each character and one
-- more, `repeat` and `parse_sections` one for each token and one more, `readLine` and the loop
-- over the lines one for each byte and one more; `parse_lines` one for each line that `left`
-- allows, and one more, where `shorter`, a law of `LineReader`, makes `left` decrease; `visit` one
-- for each place of the vector and one more. Each round consumes at least one, so the fuel
-- suffices, and the theorems on termination below state it. Where a theorem bounds a start bit or
-- a size by 2 ^ 60, the bound keeps the sums of the code from wrapping around.
--
-- Not modelled: logging and export macros, which are output and glue; the examples and the tests.
-- Positions in the syntax tree are left out. Of the warnings of the conversion only the error codes
-- behind them are kept. `peek` and `expectAndReturn` of the parser and `eof` of the file reader are
-- called by nothing.
pub mod Common
pub mod Objects
pub mod Signal
pub mod Message
pub mod Ast
pub mod Network
pub mod Convert
pub mod Lexer
pub mod Parser
pub mod Reader
pub mod Stream
pub mod Iterator
pub mod Load
mod Tests
