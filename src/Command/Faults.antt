-- ===== src/Command/Faults.antt =====
-- Output of GDB at which the commands run into undefined behaviour.
use gdbwire.Base.{
  ◌≡◌, refl, Bool, true, false, Option, none, some, Bytes, codes, Mem, value, fault, gdbwire_ok,
}
use gdbwire.Pt.{MiResult, null, cstring, tuple, list}
use gdbwire.Command.Types.{MiBreakpoint, Breakpoints, bkpt}
use gdbwire.Command.Frame.{
  FrameFields, frame_fields, no_frame_fields, stack_info_frame, set_frame_field,
}
use gdbwire.Command.Break.{break_info_for_breakpoint}
use gdbwire.Command.BreakInfo.{is_bkpt, place, body_breakpoints, break_info}
use gdbwire.Command.RoundTrip.{done_record}

-- One of the results is a text with no variable, such as `"x"` in `{"x"}`.
abbrev pub has_unnamed_text : MiResult → Bool
has_unnamed_text null = false
has_unnamed_text (cstring none text next) = true
has_unnamed_text (cstring (some name) text next) = has_unnamed_text next
has_unnamed_text (tuple v sub next) = has_unnamed_text next
has_unnamed_text (list v sub next) = has_unnamed_text next

frame_fields-fault :
    (r : MiResult) (f : FrameFields) (mem : Mem)
    → has_unnamed_text r ≡ true
    → frame_fields r f mem ≡ fault
unfolding frame_fields
frame_fields-fault null f mem h = absurd (cc)
frame_fields-fault (cstring none text next) f mem h = refl
frame_fields-fault (cstring (some name) text next) f mem h =
    frame_fields-fault next (set_frame_field name text f) mem h
frame_fields-fault (tuple v sub next) f mem h = frame_fields-fault next f mem h
frame_fields-fault (list v sub next) f mem h = frame_fields-fault next f mem h

-- A frame with a field that has no variable makes `stack_info_frame` read through NULL in strcmp.
pub stack_info_frame-fault :
    (token : Option Bytes) (fields : MiResult) (mem : Mem)
    → has_unnamed_text fields ≡ true
    → stack_info_frame (done_record token (tuple (some (codes "frame")) fields null)) mem ≡ fault
unfolding stack_info_frame
stack_info_frame-fault token null mem h = absurd (cc)
stack_info_frame-fault token (cstring v t next) mem h =
    rw (frame_fields-fault (cstring v t next) no_frame_fields mem h)
stack_info_frame-fault token (tuple v sub next) mem h =
    rw (frame_fields-fault (tuple v sub next) no_frame_fields mem h)
stack_info_frame-fault token (list v sub next) mem h =
    rw (frame_fields-fault (list v sub next) no_frame_fields mem h)

place-fault :
    (i : MiBreakpoint) (multi next : Breakpoints) (mem : Mem)
    → i.from_multi ≡ true
    → place (bkpt i multi next) Breakpoints.null mem ≡ fault
unfolding place
place-fault i multi next mem h = rw h

-- The table with one body.
abbrev pub table : MiResult → MiResult
table body = tuple (some (codes "BreakpointTable")) (list (some (codes "body")) body null) null

-- If the first breakpoint of the table is a location, one with a dot in its number, `break_info`
-- reads the variable `cur_bkpt`, which has no value yet.
pub break_info-fault :
    (token v : Option Bytes) (sub next : MiResult) (i : MiBreakpoint) (multi : Breakpoints)
    (mem m : Mem)
    → is_bkpt v ≡ true
    → break_info_for_breakpoint sub mem ≡ value (gdbwire_ok, bkpt i multi Breakpoints.null) m
    → i.from_multi ≡ true
    → break_info (done_record token (table (tuple v sub next))) mem ≡ fault
unfolding break_info body_breakpoints
break_info-fault token v sub next i multi mem m named e h =
    rw (named, e, place-fault i multi Breakpoints.null m h)
