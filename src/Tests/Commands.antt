-- ===== src/Tests/Commands.antt =====
-- The commands at concrete inputs.
use gdbwire.Base.{
  ◌≡◌, refl, List, [], ◌∷◌, none, some, true, false, codes, value, fault, pos, atoi, gdbwire_ok,
}
use gdbwire.Pt.{MiResult, null, cstring, tuple, list, append_after, strdup}
use gdbwire.Command.Types.{
  kind_stack_info_frame, MiSourceFile, debug_true, debug_unknown, Breakpoints, bkpt, MiBreakpoint,
  disp_unknown, stack_info_frame_command, file_list_exec_source_files_command,
}
use gdbwire.Command.Break.{
  break_fields, no_break_fields, BreakFields, break_info_for_breakpoint, set_break_field,
  finish_breakpoint,
}
use gdbwire.Command.BreakInfo.{body_breakpoints, break_info}
use gdbwire.Command.Files.{file_list_exec_source_files}
use gdbwire.Command.Frame.{stack_info_frame}
use gdbwire.Command.Get.{get_mi_command}
use gdbwire.Command.Contract.Get.{Returns, Answers, get_mi_command_lem}
use gdbwire.Command.Locations.{IsParent, locations_field, mi2-eq-mi3}
use gdbwire.Command.Attach.{nil, cons, tuples}
use gdbwire.Command.RoundTrip.{
  done_record, describe_all, file_list_exec_source_files-describe_all, FrameText, describe_frame,
  frame_read, stack_info_frame-describe_frame,
}
use gdbwire.Command.Faults.{stack_info_frame-fault, break_info-fault, table}

-- ^done,frame={"x"}
abbrev unnamed : MiResult
unnamed = cstring none (codes "x") null

get_mi_command_lem_example : Returns (Answers kind_stack_info_frame) (
    get_mi_command kind_stack_info_frame
      (done_record none (tuple (some (codes "frame")) null null))
      [])
get_mi_command_lem_example =
    get_mi_command_lem kind_stack_info_frame
      (done_record none (tuple (some (codes "frame")) null null)) []

abbrev pub two_files : List MiSourceFile
two_files =
    record { file = codes "a.c"; fullname = some (codes "/a.c"); debug_fully_read = debug_true }
    ∷ record { file = codes "b.c"; fullname = none; debug_fully_read = debug_unknown }
    ∷ []

file_list_exec_source_files-describe_all_example :
    file_list_exec_source_files
      (done_record none (list (some (codes "files")) (describe_all two_files) null))
      []
    ≡ value (file_list_exec_source_files_command two_files) []
file_list_exec_source_files-describe_all_example =
    file_list_exec_source_files-describe_all none two_files

abbrev pub main_frame : FrameText
main_frame = record {
  level = codes "2";
  address = some (codes "0x08048564");
  func = some (codes "main");
  file = none;
  fullname = none;
  line = some (codes "17");
  from = none;
}

stack_info_frame-describe_frame_example :
    stack_info_frame
      (done_record none (tuple (some (codes "frame")) (describe_frame main_frame) null))
      []
    ≡ value (stack_info_frame_command (frame_read main_frame (pos 2) (pos 17))) []
unfolding atoi
stack_info_frame-describe_frame_example =
    stack_info_frame-describe_frame none main_frame (pos 2) (pos 17) refl refl refl

stack_info_frame-fault_example :
    stack_info_frame (done_record none (tuple (some (codes "frame")) unnamed null)) [] ≡ fault
stack_info_frame-fault_example = stack_info_frame-fault none unnamed [] refl

-- number="1",addr="<MULTIPLE>"
abbrev parent : MiResult
parent =
    cstring (some (codes "number")) (codes "1")
      (cstring (some (codes "addr")) (codes "<MULTIPLE>") null)

-- number="1.1"
abbrev location : MiResult
location = cstring (some (codes "number")) (codes "1.1") null

abbrev parent_fields : BreakFields
parent_fields = record no_break_fields {
  number = some (codes "1");
  multi = true;
  address = some (codes "<MULTIPLE>");
}

abbrev location_info : MiBreakpoint
location_info = record {
  number = codes "1.1";
  multi = false;
  from_multi = true;
  type = none;
  catch_type = none;
  disposition = disp_unknown;
  enabled = false;
  address = none;
  func_name = none;
  file = none;
  fullname = none;
  line = 0;
  times = 0;
  original_location = none;
  pending = false;
  multi_breakpoint = none;
}

location_made :
    break_info_for_breakpoint location []
    ≡ value (gdbwire_ok, bkpt location_info Breakpoints.null Breakpoints.null) []
unfolding break_info_for_breakpoint break_fields set_break_field finish_breakpoint strdup
location_made = refl

parent-IsParent : IsParent parent (codes "1") parent_fields
unfolding break_fields set_break_field
parent-IsParent = record {
  nonempty = refl;
  parsed = refl;
  numbered = refl;
  sound = refl;
  alone = refl;
  plain = refl;
}

mi2-eq-mi3_example :
    body_breakpoints
      (tuple (some (codes "bkpt")) parent (tuples (location ∷ location ∷ []) null))
      Breakpoints.null
      []
    ≡ body_breakpoints
        (tuple
          (some (codes "bkpt"))
          (append_after parent (locations_field (location ∷ location ∷ [])))
          null)
        Breakpoints.null
        []
mi2-eq-mi3_example =
    mi2-eq-mi3 parent (codes "1") parent_fields parent-IsParent (some (codes "bkpt")) null
      Breakpoints.null refl (cons location_made refl (cons location_made refl nil))

break_info-fault_example :
    break_info (done_record none (table (tuple none location null))) [] ≡ fault
break_info-fault_example =
    break_info-fault none none location null location_info Breakpoints.null [] [] refl location_made
      refl
