-- ===== src/Pt.antt =====
-- src/gdbwire_mi_pt.h: the parse tree of GDB/MI output, and src/gdbwire_sys.c, src/gdbwire_mi_pt.c.
-- A pointer that may be NULL is an option, or for the linked lists the constructor `null`; a union
-- with its tag is one data type, with a constructor for each kind. A C string is its bytes.
use gdbwire.Base.{ℕ, Option, none, some, Bytes, M, pure, allocate, ◌>>=◌, if◌then◌else◌}

-- `struct gdbwire_mi_position`
pub record MiPosition : Type 0 where
  pub start_column : ℕ
  pub end_column : ℕ

-- `struct gdbwire_mi_result`: the result's variable, its variant, and the next result of the list.
pub data MiResult : Type 0 where
  null : MiResult
  cstring : Option Bytes → Bytes → MiResult → MiResult
  tuple : Option Bytes → MiResult → MiResult → MiResult
  list : Option Bytes → MiResult → MiResult → MiResult

pub data MiResultClass : Type 0 where
  done running connected error exit unsupported : MiResultClass

pub record MiResultRecord : Type 0 where
  pub token : Option Bytes
  pub result_class : MiResultClass
  pub result : MiResult

pub data MiAsyncRecordKind : Type 0 where
  status exec notify : MiAsyncRecordKind

pub data MiStreamRecordKind : Type 0 where
  console target log : MiStreamRecordKind

pub data MiAsyncClass : Type 0 where
  async_download async_stopped async_running : MiAsyncClass
  async_thread_group_added async_thread_group_removed : MiAsyncClass
  async_thread_group_started async_thread_group_exited : MiAsyncClass
  async_thread_created async_thread_exited async_thread_selected : MiAsyncClass
  async_library_loaded async_library_unloaded async_traceframe_changed : MiAsyncClass
  async_tsv_created async_tsv_modified async_tsv_deleted : MiAsyncClass
  async_breakpoint_created async_breakpoint_modified async_breakpoint_deleted : MiAsyncClass
  async_record_started async_record_stopped async_cmd_param_changed : MiAsyncClass
  async_memory_changed async_unsupported : MiAsyncClass

pub record MiAsyncRecord : Type 0 where
  pub token : Option Bytes
  pub kind : MiAsyncRecordKind
  pub async_class : MiAsyncClass
  pub result : MiResult

pub record MiStreamRecord : Type 0 where
  pub kind : MiStreamRecordKind
  pub cstring : Bytes

-- `struct gdbwire_mi_oob_record`
pub data MiOobRecord : Type 0 where
  async : MiAsyncRecord → MiOobRecord
  stream : MiStreamRecord → MiOobRecord

-- the kind of an output and the union that goes with it
pub data MiOutputVariant : Type 0 where
  output_oob : MiOobRecord → MiOutputVariant
  output_result : MiResultRecord → MiOutputVariant
  output_prompt : MiOutputVariant
  output_parse_error : Bytes → MiPosition → MiOutputVariant

-- `struct gdbwire_mi_output`: its variant, its line and the next output.
pub data MiOutput : Type 0 where
  null : MiOutput
  output : MiOutputVariant → Option Bytes → MiOutput → MiOutput

-- `append_gdbwire_mi_result`: a NULL item loses the list.
unfoldable pub append_after : MiResult → MiResult → MiResult
append_after null item = item
append_after (cstring v t next) item = cstring v t (append_after next item)
append_after (tuple v r next) item = tuple v r (append_after next item)
append_after (list v r next) item = list v r (append_after next item)

unfoldable pub append_mi_result : MiResult → MiResult → MiResult
unfolding append_after
append_mi_result l null = null
append_mi_result l item = append_after l item

append_output_after : MiOutput → MiOutput → MiOutput
append_output_after null item = item
append_output_after (output v line next) item = output v line (append_output_after next item)

unfoldable pub append_mi_output : MiOutput → MiOutput → MiOutput
unfolding append_output_after
append_mi_output l null = null
append_mi_output l item = append_output_after l item

-- `gdbwire_strdup`
unfoldable pub strdup : Option Bytes → M (Option Bytes)
strdup none = pure none
strdup (some str) = do granted ← allocate; pure (if granted then some str else none)
