-- ===== src/Command/Frame.antt =====
-- `stack_info_frame` of src/gdbwire_mi_command.c.
use gdbwire.Base.{
  atoi, to_unsigned, ℤ, pos, true, false, not, ◌||◌, Option, none, some, Bytes, codes, M,
  gdbwire_assert, gdbwire_nomem, pure, fail, assert, streq, ◌>>=◌, ◌>>◌, if◌then◌else◌,
}
use gdbwire.Pt.{MiResult, null, cstring, tuple, list, MiResultRecord, strdup}
use gdbwire.Command.Types.{MiCommand, stack_info_frame_command}
use gdbwire.Command.Common.{compared, is_done, is_null, checked_calloc, refused}
use gdbwire.Command.Files.{in_range}

-- The local variables of `stack_info_frame`.
pub record FrameFields : Type 0 where
  pub level : Option Bytes
  pub address : Option Bytes
  pub func : Option Bytes
  pub file : Option Bytes
  pub fullname : Option Bytes
  pub line : Option Bytes
  pub from : Option Bytes

unfoldable pub set_frame_field : Bytes → Bytes → FrameFields → FrameFields
set_frame_field name text f =
    if streq name (codes "level")
    then record f { level = some text }
    else if streq name (codes "addr")
    then record f { address = some text }
    else if streq name (codes "func")
    then record f { func = some text }
    else if streq name (codes "file")
    then record f { file = some text }
    else if streq name (codes "fullname")
    then record f { fullname = some text }
    else if streq name (codes "line")
    then record f { line = some text }
    else if streq name (codes "from")
    then record f { from = some text }
    else f

-- the loop over the fields of the frame
unfoldable pub frame_fields : MiResult → FrameFields → M FrameFields
frame_fields null f = pure f
frame_fields (cstring v text next) f = do
  name ← compared v
  frame_fields next (set_frame_field name text f)
frame_fields (tuple v sub next) f = frame_fields next f
frame_fields (list v sub next) f = frame_fields next f

abbrev pub no_frame_fields : FrameFields
no_frame_fields = record {
  level = none;
  address = none;
  func = none;
  file = none;
  fullname = none;
  line = none;
  from = none;
}

-- `address` becomes NULL where GDB has none.
unfoldable pub known_address : Bytes → Option Bytes
known_address address = if streq address (codes "<unavailable>") then none else some address

-- `(line)?atoi(line):0`
abbrev pub line_number : Option Bytes → M ℤ
line_number none = pure (pos 0)
line_number (some text) = in_range (atoi text)

-- The frame that is filled in behind the loop.
unfoldable pub stack_frame : Bytes → Option Bytes → FrameFields → M MiCommand
stack_frame level address f = do
  checked_calloc
  n ← in_range (atoi level)
  address1 ← strdup address
  func1 ← strdup f.func
  file1 ← strdup f.file
  fullname1 ← strdup f.fullname
  line1 ← line_number f.line
  from1 ← strdup f.from
  let missing =
      refused address address1
      || refused f.func func1
      || refused f.file file1
      || refused f.fullname fullname1
      || refused f.from from1
  elim missing [
    | true ↦ fail gdbwire_nomem
    | false ↦
        checked_calloc
        >> pure (
            stack_info_frame_command (record {
              level = to_unsigned n;
              address = address1;
              func = func1;
              file = file1;
              fullname = fullname1;
              line = line1;
              from = from1;
            }))
  ]

-- `GDBWIRE_ASSERT(level && address)`, and what follows.
unfoldable pub finish_frame : Option Bytes → Option Bytes → FrameFields → M MiCommand
unfolding stack_frame known_address
finish_frame (some level) (some address) f = stack_frame level (known_address address) f
finish_frame _ _ f = fail gdbwire_assert

-- The tuple that must be the only result, named "frame" and not empty.
unfoldable pub frame_of : MiResult → M MiResult
frame_of (tuple v sub next) = do
  name ← compared v
  assert (streq name (codes "frame"))
  assert (not (is_null sub))
  assert (is_null next)
  pure sub
frame_of _ = fail gdbwire_assert

unfoldable pub stack_info_frame : MiResultRecord → M MiCommand
unfolding finish_frame frame_fields frame_of set_frame_field
stack_info_frame r = do
  assert (is_done r.result_class)
  assert (not (is_null r.result))
  sub ← frame_of r.result
  f ← frame_fields sub no_frame_fields
  finish_frame f.level f.address f
