-- ===== src/Command/Get.antt =====
-- `gdbwire_get_mi_command` of src/gdbwire_mi_command.c.
use gdbwire.Base.{Option, none, some, M, GdbwireResult, gdbwire_ok, value, stop, fault}
use gdbwire.Pt.{MiResultRecord}
use gdbwire.Command.Types.{
  MiCommand, MiCommandKind, kind_break_info, kind_stack_info_frame, kind_file_list_exec_source_file,
  kind_file_list_exec_source_files,
}
use gdbwire.Command.Files.{file_list_exec_source_file, file_list_exec_source_files}
use gdbwire.Command.Frame.{stack_info_frame}
use gdbwire.Command.BreakInfo.{break_info}

-- the switch
unfoldable pub handler : MiCommandKind → MiResultRecord → M MiCommand
handler kind_break_info r = break_info r
handler kind_stack_info_frame r = stack_info_frame r
handler kind_file_list_exec_source_file r = file_list_exec_source_file r
handler kind_file_list_exec_source_files r = file_list_exec_source_files r

-- The code that a handler returns, and `*out`, which is NULL unless the handler filled it in.
abbrev pub answered : M MiCommand → M (GdbwireResult × Option MiCommand)
answered m mem = elim (m mem) [
  | value c mem1 ↦ value (gdbwire_ok, some c) mem1
  | stop code mem1 ↦ value (code, none) mem1
  | fault ↦ fault
]

unfoldable pub get_mi_command :
    MiCommandKind → MiResultRecord → M (GdbwireResult × Option MiCommand)
unfolding handler
get_mi_command kind r = answered (handler kind r)
