-- ===== src/Grammar.antt =====
-- src/gdbwire_mi_grammar.y: the texts of C strings, and the classes of records.
pub mod Unescape
pub mod Productions
pub mod Machine
pub mod Complete
pub mod Accept
pub mod Reached
pub mod Steps
pub mod Sound
pub mod Shifts
pub mod Viable
pub mod Verdict
use gdbwire.Base.{
  Bool, true, false, Option, none, some, [], ◌∷◌, Bytes, codes, streq, ◌==◌, if◌then◌else◌, M, pure,
  undefined, ◌>>=◌, ℕ,
}
use gdbwire.Pt.{
  strdup, MiResultClass, done, running, connected, error, exit, unsupported, MiAsyncClass,
  async_download, async_stopped, async_running, async_thread_group_added,
  async_thread_group_removed, async_thread_group_started, async_thread_group_exited,
  async_thread_created, async_thread_exited, async_thread_selected, async_library_loaded,
  async_library_unloaded, async_traceframe_changed, async_tsv_created, async_tsv_modified,
  async_tsv_deleted, async_breakpoint_created, async_breakpoint_modified, async_breakpoint_deleted,
  async_record_started, async_record_stopped, async_cmd_param_changed, async_memory_changed,
  async_unsupported,
}

-- The byte that a backslash and `c` stand for; `none` is the default case.
unfoldable pub escape_of : ℕ → Option ℕ
escape_of c =
    if c == b'n'
    then some 10
    else if c == b'b'
    then some 8
    else if c == b't'
    then some 9
    else if c == b'f'
    then some 12
    else if c == b'r'
    then some 13
    else if c == b'e'
    then some 27
    else if c == b'a'
    then some 7
    else if c == b'"'
    then some b'"'
    else if c == b'\\'
    then some b'\\'
    else none

-- The bytes that the loop of `gdbwire_mi_unescape_cstring` writes, from the text at `str + s` on.
-- The last byte, the closing quote, is not copied; the default case copies the backslash.
unfoldable pub unescape_from : Bytes → Bytes
unescape_from [] = []
unescape_from (c ∷ []) = []
unescape_from (c ∷ d ∷ cs) =
    let kept = c ∷ unescape_from (d ∷ cs) in
    let behind = unescape_from cs in
    if c == b'\\' then elim (escape_of d) [ none ↦ kept | some e ↦ e ∷ behind ] else kept

-- `gdbwire_mi_unescape_cstring`: the end of the result is written through the copy's pointer, and
-- the length of an empty text wraps.
unfoldable pub unescape_cstring : Bytes → M Bytes
unescape_cstring str = do
  result ← strdup (some str)
  elim result [
    | none ↦ undefined
    | some copy ↦ elim str [ [] ↦ undefined | c ∷ cs ↦ pure (unescape_from cs) ]
  ]

-- the production of result_class
unfoldable pub result_class : Bytes → MiResultClass
result_class text =
    if streq (codes "done") text
    then done
    else if streq (codes "running") text
    then running
    else if streq (codes "connected") text
    then connected
    else if streq (codes "error") text
    then error
    else if streq (codes "exit") text
    then exit
    else unsupported

-- the production of async_class
unfoldable pub async_class : Bytes → MiAsyncClass
async_class text =
    if streq (codes "download") text
    then async_download
    else if streq (codes "stopped") text
    then async_stopped
    else if streq (codes "running") text
    then async_running
    else if streq (codes "thread-group-added") text
    then async_thread_group_added
    else if streq (codes "thread-group-removed") text
    then async_thread_group_removed
    else if streq (codes "thread-group-started") text
    then async_thread_group_started
    else if streq (codes "thread-group-exited") text
    then async_thread_group_exited
    else if streq (codes "thread-created") text
    then async_thread_created
    else if streq (codes "thread-exited") text
    then async_thread_exited
    else if streq (codes "thread-selected") text
    then async_thread_selected
    else if streq (codes "library-loaded") text
    then async_library_loaded
    else if streq (codes "library-unloaded") text
    then async_library_unloaded
    else if streq (codes "traceframe-changed") text
    then async_traceframe_changed
    else if streq (codes "tsv-created") text
    then async_tsv_created
    else if streq (codes "tsv-modified") text
    then async_tsv_modified
    else if streq (codes "tsv-deleted") text
    then async_tsv_deleted
    else if streq (codes "breakpoint-created") text
    then async_breakpoint_created
    else if streq (codes "breakpoint-modified") text
    then async_breakpoint_modified
    else if streq (codes "breakpoint-deleted") text
    then async_breakpoint_deleted
    else if streq (codes "record-started") text
    then async_record_started
    else if streq (codes "record-stopped") text
    then async_record_stopped
    else if streq (codes "cmd-param-changed") text
    then async_cmd_param_changed
    else if streq (codes "memory-changed") text
    then async_memory_changed
    else async_unsupported
