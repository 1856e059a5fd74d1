-- ===== src/Command/Types.antt =====
-- src/gdbwire_mi_command.h: what the commands give to the user.
use gdbwire.Base.{ℕ, ℤ, Bool, Option, List, Bytes}

-- `enum gdbwire_mi_command_kind`
pub data MiCommandKind : Type 0 where
  kind_break_info kind_stack_info_frame : MiCommandKind
  kind_file_list_exec_source_file kind_file_list_exec_source_files : MiCommandKind

pub data MiDebugFullyRead : Type 0 where
  debug_unknown debug_true debug_false : MiDebugFullyRead

-- `struct gdbwire_mi_source_file`; the linked list of them is a list.
pub record MiSourceFile : Type 0 where
  pub file : Bytes
  pub fullname : Option Bytes
  pub debug_fully_read : MiDebugFullyRead

pub data MiDisposition : Type 0 where
  disp_delete disp_delete_next_stop disp_disable disp_keep disp_unknown : MiDisposition

-- `struct gdbwire_mi_breakpoint` without its links to other breakpoints, but for the back link
-- `multi_breakpoint`, which is the number of the breakpoint that it points to.
pub record MiBreakpoint : Type 0 where
  pub number : Bytes
  pub multi : Bool
  pub from_multi : Bool
  pub type : Option Bytes
  pub catch_type : Option Bytes
  pub disposition : MiDisposition
  pub enabled : Bool
  pub address : Option Bytes
  pub func_name : Option Bytes
  pub file : Option Bytes
  pub fullname : Option Bytes
  pub line : ℕ
  pub times : ℕ
  pub original_location : Option Bytes
  pub pending : Bool
  pub multi_breakpoint : Option Bytes

-- A linked list of breakpoints: a breakpoint, its `multi_breakpoints`, and its `next`.
pub data Breakpoints : Type 0 where
  null : Breakpoints
  bkpt : MiBreakpoint → Breakpoints → Breakpoints → Breakpoints

pub record MiStackFrame : Type 0 where
  pub level : ℕ
  pub address : Option Bytes
  pub func : Option Bytes
  pub file : Option Bytes
  pub fullname : Option Bytes
  pub line : ℤ
  pub from : Option Bytes

-- the variant `file_list_exec_source_file` of `struct gdbwire_mi_command`; `macro_info` is the bit
-- that is stored, 0 where the field was absent
pub record MiSourceFileInfo : Type 0 where
  pub line : ℤ
  pub file : Bytes
  pub fullname : Option Bytes
  pub macro_info : ℕ
  pub macro_info_exists : Bool

-- `struct gdbwire_mi_command`: its kind with the variant of that kind.
pub data MiCommand : Type 0 where
  break_info_command : Breakpoints → MiCommand
  stack_info_frame_command : MiStackFrame → MiCommand
  file_list_exec_source_file_command : MiSourceFileInfo → MiCommand
  file_list_exec_source_files_command : List MiSourceFile → MiCommand

abbrev pub kind_of : MiCommand → MiCommandKind
kind_of (break_info_command b) = kind_break_info
kind_of (stack_info_frame_command f) = kind_stack_info_frame
kind_of (file_list_exec_source_file_command i) = kind_file_list_exec_source_file
kind_of (file_list_exec_source_files_command f) = kind_file_list_exec_source_files
