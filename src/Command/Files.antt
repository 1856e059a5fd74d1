-- ===== src/Command/Files.antt =====
-- `file_list_exec_source_file` and `file_list_exec_source_files` of src/gdbwire_mi_command.c.
use gdbwire.Base.{
  ℕ, ℤ, atoi, Bool, true, false, not, ◌||◌, Option, none, some, List, [], ◌∷◌, Bytes, codes, M,
  gdbwire_assert, gdbwire_nomem, pure, fail, undefined, assert, streq, allocate, ◌>>=◌, ◌>>◌,
  if◌then◌else◌,
}
use gdbwire.Pt.{MiResult, null, cstring, tuple, list, MiResultRecord, strdup}
use gdbwire.Command.Types.{
  MiCommand, MiSourceFile, MiDebugFullyRead, debug_unknown, debug_true, debug_false,
  file_list_exec_source_file_command, file_list_exec_source_files_command,
}
use gdbwire.Command.Common.{compared, is_done, is_null, checked_calloc, refused}

-- The local variables of `file_list_exec_source_file`.
pub record SourceFields : Type 0 where
  pub line : Option Bytes
  pub file : Option Bytes
  pub fullname : Option Bytes
  pub macro_info : Option Bytes

-- The two assertions on `macro_info`.
unfoldable pub is_flag : Bytes → Bool
is_flag text = streq text (codes "0") || streq text (codes "1")

unfoldable pub set_source_field : Bytes → Bytes → SourceFields → M SourceFields
unfolding is_flag
set_source_field name text f =
    if streq name (codes "line")
    then pure (record f { line = some text })
    else if streq name (codes "file")
    then pure (record f { file = some text })
    else if streq name (codes "fullname")
    then pure (record f { fullname = some text })
    else if streq name (codes "macro-info")
    then (assert (is_flag text) >> pure (record f { macro_info = some text }))
    else pure f

-- the loop over the results
unfoldable pub source_fields : MiResult → SourceFields → M SourceFields
source_fields null f = pure f
source_fields (cstring v text next) f = do
  name ← compared v
  g ← set_source_field name text f
  source_fields next g
source_fields (tuple v sub next) f = source_fields next f
source_fields (list v sub next) f = source_fields next f

abbrev pub no_source_fields : SourceFields
no_source_fields = record { line = none; file = none; fullname = none; macro_info = none }

-- A value of `atoi` that is in range.
abbrev pub in_range : Option ℤ → M ℤ
in_range none = undefined
in_range (some n) = pure n

-- The bit stored for `macro_info`, which the assertions hold to "0" or "1".
abbrev pub flag_bit : Option Bytes → ℕ
flag_bit none = 0
flag_bit (some text) = if streq text (codes "1") then 1 else 0

abbrev pub is_given : Option Bytes → Bool
is_given none = false
is_given (some text) = true

-- A copy that was made, or GDBWIRE_NOMEM.
abbrev pub copied : Option Bytes → M Bytes
copied none = fail gdbwire_nomem
copied (some text) = pure text

-- The command that is filled in behind the loop.
unfoldable pub source_command : Bytes → Bytes → SourceFields → M MiCommand
source_command line file f = do
  checked_calloc
  n ← in_range (atoi line)
  file_copy ← strdup (some file)
  file1 ← copied file_copy
  fullname1 ← strdup f.fullname
  elim (refused f.fullname fullname1) [
    | true ↦ fail gdbwire_nomem
    | false ↦ pure (
        file_list_exec_source_file_command (record {
          line = n;
          file = file1;
          fullname = fullname1;
          macro_info = flag_bit f.macro_info;
          macro_info_exists = is_given f.macro_info;
        }))
  ]

-- `GDBWIRE_ASSERT(line && file)`, and what follows.
unfoldable pub finish_source : Option Bytes → Option Bytes → SourceFields → M MiCommand
unfolding source_command
finish_source (some line) (some file) f = source_command line file f
finish_source _ _ f = fail gdbwire_assert

unfoldable pub file_list_exec_source_file : MiResultRecord → M MiCommand
unfolding finish_source source_fields set_source_field
file_list_exec_source_file r = do
  assert (is_done r.result_class)
  assert (not (is_null r.result))
  f ← source_fields r.result no_source_fields
  finish_source f.line f.file f

-- The local variables of the loop of `file_list_exec_source_files`.
pub record FileFields : Type 0 where
  pub file : Option Bytes
  pub fullname : Option Bytes
  pub debug_fully_read : MiDebugFullyRead

unfoldable pub set_file_field : Bytes → Bytes → FileFields → FileFields
set_file_field name text f =
    if streq name (codes "file")
    then record f { file = some text }
    else if streq name (codes "fullname")
    then record f { fullname = some text }
    else if streq name (codes "debug-fully-read")
    then (if streq text (codes "false")
        then record f { debug_fully_read = debug_false }
        else if streq text (codes "true")
        then record f { debug_fully_read = debug_true }
        else f)
    else f

-- the inner loop, over the fields of a tuple
unfoldable pub file_fields : MiResult → FileFields → M FileFields
file_fields null f = pure f
file_fields (cstring v text next) f = do
  name ← compared v
  file_fields next (set_file_field name text f)
file_fields (tuple v sub next) f = fail gdbwire_assert
file_fields (list v sub next) f = fail gdbwire_assert

abbrev pub no_file_fields : FileFields
no_file_fields = record { file = none; fullname = none; debug_fully_read = debug_unknown }

-- An allocation that is asserted, and not answered with GDBWIRE_NOMEM.
abbrev pub asserted_calloc : M (Unit {0})
asserted_calloc = do
  granted ← allocate
  elim granted [ true ↦ pure tt | false ↦ fail gdbwire_assert ]

abbrev pub asserted_text : Option Bytes → M Bytes
asserted_text none = fail gdbwire_assert
asserted_text (some text) = pure text

-- The new node of one tuple. Both copies are made before the assertion on them.
unfoldable pub source_file_node : FileFields → M MiSourceFile
source_file_node f = do
  file ← asserted_text f.file
  asserted_calloc
  file1 ← strdup (some file)
  fullname1 ← strdup f.fullname
  file2 ← asserted_text file1
  elim (refused f.fullname fullname1) [
    | true ↦ fail gdbwire_assert
    | false ↦
        pure (record { file = file2; fullname = fullname1; debug_fully_read = f.debug_fully_read })
  ]

-- The outer loop. Each node is made before the next tuple is read, and stands in front of the rest.
unfoldable pub source_files : MiResult → M (List MiSourceFile)
unfolding source_file_node file_fields
source_files null = pure []
source_files (tuple v sub next) = do
  f ← file_fields sub no_file_fields
  node ← source_file_node f
  nodes ← source_files next
  pure (node ∷ nodes)
source_files (cstring v text next) = fail gdbwire_assert
source_files (list v sub next) = fail gdbwire_assert

-- The list that must be the only result, named "files".
unfoldable pub files_of : MiResult → M MiResult
files_of (list v sub next) = do
  name ← compared v
  assert (streq name (codes "files"))
  assert (is_null next)
  pure sub
files_of _ = fail gdbwire_assert

unfoldable pub file_list_exec_source_files : MiResultRecord → M MiCommand
unfolding source_files files_of
file_list_exec_source_files r = do
  assert (is_done r.result_class)
  assert (not (is_null r.result))
  sub ← files_of r.result
  nodes ← source_files sub
  asserted_calloc
  pure (file_list_exec_source_files_command nodes)
