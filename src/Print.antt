-- ===== src/Print.antt =====
-- How GDB writes MI output: the words of a line, and its bytes, as src/gdbwire_mi_grammar.txt tells
-- it. The grammar and the lexer are given such lines.
pub mod Words
pub mod Results
pub mod Derived
pub mod Calm
pub mod Calls
pub mod Reply
pub mod Breakpoints
use gdbwire.Base.{
  ℕ, ◌&&◌, Bool, true, false, Option, none, some, List, [], ◌∷◌, ◌++◌, Bytes, codes, streq,
  if◌then◌else◌,
}
use gdbwire.Pt.{
  MiResult, null, cstring, tuple, list, MiAsyncRecordKind, exec, status, notify, MiStreamRecordKind,
  console, target, log, MiOutputVariant, output_result, output_oob, output_prompt, async, stream,
  MiResultClass, done, running, connected, error, exit, unsupported, MiAsyncClass, async_download,
  async_stopped, async_running, async_thread_group_added, async_thread_group_removed,
  async_thread_group_started, async_thread_group_exited, async_thread_created, async_thread_exited,
  async_thread_selected, async_library_loaded, async_library_unloaded, async_traceframe_changed,
  async_tsv_created, async_tsv_modified, async_tsv_deleted, async_breakpoint_created,
  async_breakpoint_modified, async_breakpoint_deleted, async_record_started, async_record_stopped,
  async_cmd_param_changed, async_memory_changed, async_unsupported,
}
use gdbwire.Lexer.{
  Token, string_literal, integer_literal, comma, carrot, equal_sign, open_brace, closed_brace,
  open_bracket, closed_bracket, open_paren, closed_paren, mult_op, add_op, tilda, at_symbol,
  ampersand, newline,
}
use gdbwire.Grammar.Unescape.{escaped, as_read, all_shown}

-- A token with its text.
abbrev pub Word : Type 0
Word = Token × Bytes

abbrev pub sign : Token → ℕ → Word
sign t c = (t, c ∷ [])

abbrev pub quoted : Bytes → Word
quoted t = (Token.cstring, b'"' ∷ escaped t)

abbrev pub variable_words : Option Bytes → List Word → List Word
variable_words none rest = rest
variable_words (some v) rest = (string_literal, v) ∷ sign equal_sign b'=' ∷ rest

-- A comma stands in front of each result but the first.
abbrev pub comma_words : Bool → List Word → List Word
comma_words true rest = rest
comma_words false rest = sign comma b',' ∷ rest

-- The results, in front of `rest`; the flag says that they are the first of their list.
abbrev pub results_words : Bool → MiResult → List Word → List Word
results_words first null rest = rest
results_words first (cstring v t next) rest =
    comma_words first (variable_words v (quoted t ∷ results_words false next rest))
results_words first (tuple v sub next) rest = comma_words first (
    variable_words v (
      sign open_brace b'{'
      ∷ results_words true sub (sign closed_brace b'}' ∷ results_words false next rest)))
results_words first (list v sub next) rest = comma_words first (
    variable_words v (
      sign open_bracket b'['
      ∷ results_words true sub (sign closed_bracket b']' ∷ results_words false next rest)))

-- What GDB may say in one line. A class is given by its name.
pub data Said : Type 0 where
  result_said : Option Bytes → Bytes → MiResult → Said
  async_said : Option Bytes → MiAsyncRecordKind → Bytes → MiResult → Said
  stream_said : MiStreamRecordKind → Bytes → Said
  prompt_said : Said

abbrev pub token_words : Option Bytes → List Word → List Word
token_words none rest = rest
token_words (some digits) rest = (integer_literal, digits) ∷ rest

abbrev pub async_sign : MiAsyncRecordKind → Word
async_sign exec = sign mult_op b'*'
async_sign status = sign add_op b'+'
async_sign notify = sign equal_sign b'='

abbrev pub stream_sign : MiStreamRecordKind → Word
stream_sign console = sign tilda b'~'
stream_sign target = sign at_symbol b'@'
stream_sign log = sign ampersand b'&'

abbrev pub line_end_words : List Word
line_end_words = sign newline b'\n' ∷ []

-- The class and its results, up to the line's end.
abbrev pub class_words : Bytes → MiResult → List Word
class_words name r = (string_literal, name) ∷ results_words false r line_end_words

abbrev pub prompt_words : List Word
prompt_words = (string_literal, codes "gdb") ∷ sign closed_paren b')' ∷ line_end_words

abbrev pub words : Said → List Word
words (result_said token name r) = token_words token (sign carrot b'^' ∷ class_words name r)
words (async_said token kind name r) = token_words token (async_sign kind ∷ class_words name r)
words (stream_said kind text) = stream_sign kind ∷ quoted text ∷ line_end_words
words prompt_said = sign open_paren b'(' ∷ prompt_words

abbrev pub spelling : List Word → Bytes
spelling [] = []
spelling (w ∷ ws) = w.1 ++ spelling ws

-- The line, with its line break. GDB writes a blank behind its prompt.
abbrev pub line : Said → Bytes
line prompt_said = codes "(gdb) \n"
line s = spelling (words s)

-- A name's entry in a table; a name without one has `otherwise`.
abbrev pub entry : {A : Type 0} → List (Bytes × A) → A → Bytes → A
entry [] otherwise name = otherwise
entry ((n, x) ∷ ps) otherwise name = if streq n name then x else entry ps otherwise name

-- The classes of result records and of async records, with GDB's names for them.
abbrev pub result_names : List (Bytes × MiResultClass)
result_names =
    (codes "done", done)
    ∷ (codes "running", running)
    ∷ (codes "connected", connected)
    ∷ (codes "error", error)
    ∷ (codes "exit", exit)
    ∷ []

abbrev pub async_names : List (Bytes × MiAsyncClass)
async_names =
    (codes "download", async_download)
    ∷ (codes "stopped", async_stopped)
    ∷ (codes "running", async_running)
    ∷ (codes "thread-group-added", async_thread_group_added)
    ∷ (codes "thread-group-removed", async_thread_group_removed)
    ∷ (codes "thread-group-started", async_thread_group_started)
    ∷ (codes "thread-group-exited", async_thread_group_exited)
    ∷ (codes "thread-created", async_thread_created)
    ∷ (codes "thread-exited", async_thread_exited)
    ∷ (codes "thread-selected", async_thread_selected)
    ∷ (codes "library-loaded", async_library_loaded)
    ∷ (codes "library-unloaded", async_library_unloaded)
    ∷ (codes "traceframe-changed", async_traceframe_changed)
    ∷ (codes "tsv-created", async_tsv_created)
    ∷ (codes "tsv-modified", async_tsv_modified)
    ∷ (codes "tsv-deleted", async_tsv_deleted)
    ∷ (codes "breakpoint-created", async_breakpoint_created)
    ∷ (codes "breakpoint-modified", async_breakpoint_modified)
    ∷ (codes "breakpoint-deleted", async_breakpoint_deleted)
    ∷ (codes "record-started", async_record_started)
    ∷ (codes "record-stopped", async_record_stopped)
    ∷ (codes "cmd-param-changed", async_cmd_param_changed)
    ∷ (codes "memory-changed", async_memory_changed)
    ∷ []

-- The results with their texts as gdbwire gives them back, an octal escape as it is written.
abbrev pub texts_read : MiResult → MiResult
texts_read null = null
texts_read (cstring v t next) = cstring v (as_read t) (texts_read next)
texts_read (tuple v sub next) = tuple v (texts_read sub) (texts_read next)
texts_read (list v sub next) = list v (texts_read sub) (texts_read next)

-- GDB writes none of the texts with octal.
abbrev pub texts_shown : MiResult → Bool
texts_shown null = true
texts_shown (cstring v t next) = all_shown t && texts_shown next
texts_shown (tuple v sub next) = texts_shown sub && texts_shown next
texts_shown (list v sub next) = texts_shown sub && texts_shown next

-- What the line means: GDB's class by its name, GDB's results, and GDB's texts.
abbrev pub meaning : Said → MiOutputVariant
meaning (result_said token name r) = output_result (record {
  token = token;
  result_class = entry result_names unsupported name;
  result = texts_read r;
})
meaning (async_said token kind name r) = output_oob (
    async (record {
      token = token;
      kind = kind;
      async_class = entry async_names async_unsupported name;
      result = texts_read r;
    }))
meaning (stream_said kind text) =
    output_oob (stream (record { kind = kind; cstring = as_read text }))
meaning prompt_said = output_prompt
