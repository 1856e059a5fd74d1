-- ===== src/Command/BreakInfo.antt =====
-- `break_info` of src/gdbwire_mi_command.c.
use gdbwire.Base.{
  Bool, true, false, not, Option, none, some, Bytes, codes, M, GdbwireResult, gdbwire_ok,
  gdbwire_assert, pure, fail, undefined, assert, streq, ◌>>=◌, ◌>>◌, if◌then◌else◌,
}
use gdbwire.Pt.{MiResult, null, cstring, tuple, list, MiResultRecord}
use gdbwire.Command.Types.{MiBreakpoint, Breakpoints, bkpt, MiCommand, break_info_command}
use gdbwire.Command.Common.{compared, is_done, is_null, checked_calloc}
use gdbwire.Command.Break.{append_breakpoints, break_info_for_breakpoint}

-- The test of the variable, which is only made where there is one.
abbrev pub is_bkpt : Option Bytes → Bool
is_bkpt none = true
is_bkpt (some name) = streq name (codes "bkpt")

-- The branch for a breakpoint of a multiple location breakpoint: it goes behind the
-- `multi_breakpoints` of `cur_bkpt`, the last breakpoint of the list. While the list is empty
-- `cur_bkpt` has no value, and the branch reads through it.
unfoldable pub attach_location : MiBreakpoint → Breakpoints → Breakpoints → M Breakpoints
attach_location info multi Breakpoints.null = undefined
attach_location info multi (bkpt cur cur_multi Breakpoints.null) = pure (
    bkpt cur
      (append_breakpoints cur_multi
        (bkpt (record info { multi_breakpoint = some cur.number }) multi Breakpoints.null))
      Breakpoints.null)
attach_location info multi (bkpt first first_multi (bkpt cur cur_multi next)) = do
  rest ← attach_location info multi (bkpt cur cur_multi next)
  pure (bkpt first first_multi rest)

-- The two branches on a breakpoint that was made.
unfoldable pub place : Breakpoints → Breakpoints → M Breakpoints
unfolding attach_location append_breakpoints
place Breakpoints.null breakpoints = undefined
place (bkpt info multi next) breakpoints =
    if info.from_multi
    then attach_location info multi breakpoints
    else pure (append_breakpoints breakpoints (bkpt info multi next))

-- What is done with the result of `break_info_for_breakpoint`.
abbrev pub place_or_fail : GdbwireResult × Breakpoints → Breakpoints → M Breakpoints
place_or_fail (gdbwire_ok, b) breakpoints = place b breakpoints
place_or_fail (code, b) breakpoints = fail code

-- the loop over the body
unfoldable pub body_breakpoints : MiResult → Breakpoints → M Breakpoints
body_breakpoints null breakpoints = pure breakpoints
body_breakpoints (tuple v sub next) breakpoints = do
  assert (is_bkpt v)
  r ← break_info_for_breakpoint sub
  more ← place_or_fail r breakpoints
  body_breakpoints next more
body_breakpoints (cstring v text next) breakpoints = fail gdbwire_assert
body_breakpoints (list v sub next) breakpoints = fail gdbwire_assert

-- Fast forward to the body, which must be the last result.
unfoldable pub find_body : MiResult → M MiResult
find_body null = fail gdbwire_assert
find_body (cstring v text next) = find_body next
find_body (tuple v sub next) = find_body next
find_body (list v sub next) = do
  name ← compared v
  elim (streq name (codes "body")) [
    | true ↦ assert (is_null next) >> pure sub
    | false ↦ find_body next
  ]

-- The tuple that must be the only result, named "BreakpointTable" and not empty.
unfoldable pub table_of : MiResult → M MiResult
table_of (tuple v sub next) = do
  name ← compared v
  assert (streq name (codes "BreakpointTable"))
  assert (not (is_null sub))
  assert (is_null next)
  pure sub
table_of _ = fail gdbwire_assert

unfoldable pub break_info : MiResultRecord → M MiCommand
unfolding table_of find_body
break_info r = do
  assert (is_done r.result_class)
  assert (not (is_null r.result))
  table ← table_of r.result
  body ← find_body table
  breakpoints ← body_breakpoints body Breakpoints.null
  checked_calloc
  pure (break_info_command breakpoints)
