-- ===== src/Lib.antt =====
-- gdbwire: a library that reads the GDB/MI output of the GNU debugger.
--
-- The program takes bytes from gdb, cuts them into lines, parses each line into a tree, gives the
-- trees to callbacks, and turns result records into commands. This development models the parts
-- below; each definition follows the C function that its comment names.
--
-- Base: shared names; Base/Run is how a C function runs: a value, an early return with a
--   `GdbwireResult` (src/gdbwire_result.h, src/gdbwire_assert.h), or undefined behaviour.
--   Allocations take their outcomes from a list, `Mem`, so a theorem for every `Mem` holds for
--   every pattern of refused allocations. Base/Numbers has strtoul and atoi.
-- StringBuf: src/gdbwire_string.c, the growing byte buffer, over cells of memory. Holds is its
--   abstraction to the list of bytes that it holds; Append, Create, Erase and Find have the
--   operations.
-- Pt: src/gdbwire_mi_pt.h, the parse tree, with src/gdbwire_mi_pt.c and src/gdbwire_sys.c.
-- Command: src/gdbwire_mi_command.c: Files, Frame, Break, BreakInfo and Get have the handlers;
--   Contract, RoundTrip, Table, Attach, Locations and Faults have what is shown of them.
-- MiParser: src/gdbwire_mi_parser.c: the pushed bytes are cut into lines. The parse of a line is a
--   parameter, `parse_line`. Cut, Lines and Feed have the reference, a cut of the whole text and
--   the lines parsed in order; Scan and Next have gdbwire_mi_parser_get_next_line, Texts, Drain,
--   Chunks and Push the loop of gdbwire_mi_parser_push_data.
-- Lexer: src/gdbwire_mi_lexer.l: the rules, and of flex its documented choice, the longest match and
--   then the first rule. Derivatives and Patterns are what patterns mean, Munch the matches of a
--   line, Stays, Lines and Terminated the tokens of a line that has its one break at the end,
--   First, Absent, Words and Quoted what is picked at a sign, a name, a number and a C string.
-- Grammar: src/gdbwire_mi_grammar.y: the texts of C strings, with their facts in Unescape, and the
--   classes of records. Productions has the productions with their actions as relations; Machine
--   has the push parser that Bison makes of them, a step on the values read so far and the place
--   in the productions, with the error recovery. Complete and Accept are about tokens that the
--   productions derive, Reached, Steps, Sound and Shifts about tokens that the push parser takes,
--   Viable about the beginnings of outputs, and Verdict about all that a line's tokens can be.
-- Wire: src/gdbwire.c: the dispatch of outputs to callbacks and gdbwire_interpreter_exec, with the
--   end of gdbwire_mi_parser_parse_line and gdbwire_mi_parser_create. The lexer and push parser
--   are parameters, `parse_output` for a line and `new_parser` for their creation. Tokens has
--   the modelled lexer and push parser for `parse_output`, where `Mem` also says whether Bison's
--   stack has room for each token, and Line the pushes to such a parser. Fitting has the invariant
--   of the context, Create the new parser, Interpreter what the call computes, OneLine and Exec
--   what it does with one line, Unbroken what it does with none.
-- Lifetime: the creation of a gdbwire, its parser and its buffer, and their release, with the
--   addresses of their blocks and the releases on the error paths. Apart is about lists of blocks,
--   Grown about what an allocation and a release do, Buffer about the buffer, Balance about the
--   whole. The creation and the release of the scanner and of the push parser's state are
--   parameters.
-- Print: GDB's side, the lines that it writes for what it means. Words is about the lexer on such a
--   line, Results and Derived about the productions, Calm about the cut into lines, Calls about a
--   push of them, and Reply and Breakpoints about gdbwire_interpreter_exec. GDB's escapes are those
--   of src/gdbwire_mi_grammar.txt, and a byte is printable from 32 to 126.
-- Logger: src/gdbwire_logger.c, with its static variables; Env is about the environment.
-- Release: src/gdbwire_mi_pt_alloc.c and the releases of src/gdbwire_mi_command.c, on trees that are
--   given with the addresses of their blocks. Order has runs that release a list of blocks, Blocks
--   the outputs, Commands the commands.
-- Tests: the definitions and the theorems at concrete inputs.
--
-- Sizes are `size_t` of 64 bits with their wrap-around written out, `int` has 32 bits. Loops
-- are recursions on the bytes, positions or results that are left, but for `drain`, the loop of a
-- push, and `pieces`, the scanner: `drain` has fuel for one round more than the buffer has bytes,
-- and each round takes a line; `pieces` has fuel for each byte, and each match takes one.
--
-- Not modelled: the releases on the error paths of the commands and in the actions of the grammar;
-- the log lines that the other parts write; refused allocations in the actions of the grammar and
-- in the scanner, but for the scanner's buffer; how deep Bison's stack is, so whether it has room
-- for a token is an outcome; and the creation of the scanner and of the push parser's state by
-- generated code, which is a parameter.
pub mod Base
pub mod StringBuf
pub mod Pt
pub mod Command
pub mod MiParser
pub mod Wire
pub mod Lexer
pub mod Grammar
pub mod Logger
pub mod Lifetime
pub mod Release
pub mod Print
mod Tests
