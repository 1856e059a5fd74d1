-- ===== src/Command/Contract/Frame.antt =====
-- The error codes and the kind of the stack frame command.
use gdbwire.Base.{
  ◌≡◌, refl, value, Bool, true, false, not, Option, none, some, Bytes, codes, M, streq, assert,
  atoi, fail, gdbwire_nomem, ◌>>◌,
}
use gdbwire.Pt.{MiResult, null, cstring, tuple, list, MiResultRecord, strdup}
use gdbwire.Command.Types.{MiCommand, kind_of, kind_stack_info_frame}
use gdbwire.Command.Common.{compared, is_done, is_null, checked_calloc}
use gdbwire.Command.Files.{in_range}
use gdbwire.Command.Frame.{
  FrameFields, set_frame_field, frame_fields, no_frame_fields, known_address, line_number,
  stack_frame, finish_frame, frame_of, stack_info_frame,
}
use gdbwire.Command.Contract.{
  pure-Keeps, assert-fails, nomem-fails, Keeps, IsSound, Keeps-bind, assert-IsSound,
  compared-IsSound, checked_calloc-IsSound, strdup-IsSound,
}
use gdbwire.Command.Contract.Files.{in_range-IsSound}

frame_fields-IsSound : (r : MiResult) (f : FrameFields) → IsSound (frame_fields r f)
unfolding frame_fields
frame_fields-IsSound null f = pure-Keeps _ tt
frame_fields-IsSound (cstring v text next) f =
    Keeps-bind _ (compared v) _ (compared-IsSound v)
      λ name. frame_fields-IsSound next (set_frame_field name text f)
frame_fields-IsSound (tuple v sub next) f = frame_fields-IsSound next f
frame_fields-IsSound (list v sub next) f = frame_fields-IsSound next f

line_number-IsSound : (o : Option Bytes) → IsSound (line_number o)
line_number-IsSound none = pure-Keeps _ tt
line_number-IsSound (some text) = in_range-IsSound (atoi text)

abbrev GivesFrame : M MiCommand → Type 0
GivesFrame = Keeps (λ c. kind_of c ≡ kind_stack_info_frame)

last_calloc-Keeps :
    (missing : Bool) (c : MiCommand)
    → kind_of c ≡ kind_stack_info_frame
    → GivesFrame (elim missing [
      | true ↦ fail gdbwire_nomem
      | false ↦ checked_calloc >> (λ mem. value c mem)
    ])
last_calloc-Keeps true c h = nomem-fails
last_calloc-Keeps false c h =
    Keeps-bind _ checked_calloc _ checked_calloc-IsSound λ _. pure-Keeps _ h

stack_frame-Keeps :
    (level : Bytes) (address : Option Bytes) (f : FrameFields)
    → GivesFrame (stack_frame level address f)
unfolding stack_frame
stack_frame-Keeps level address f = Keeps-bind _ checked_calloc _ checked_calloc-IsSound λ _.
    Keeps-bind _ (in_range (atoi level)) _ (in_range-IsSound (atoi level)) λ n.
      Keeps-bind _ (strdup address) _ (strdup-IsSound address) λ address1.
        Keeps-bind _ (strdup f.func) _ (strdup-IsSound f.func) λ func1.
          Keeps-bind _ (strdup f.file) _ (strdup-IsSound f.file) λ file1.
            Keeps-bind _ (strdup f.fullname) _ (strdup-IsSound f.fullname) λ fullname1.
              Keeps-bind _ (line_number f.line) _ (line_number-IsSound f.line) λ line1.
                Keeps-bind _ (strdup f.from) _ (strdup-IsSound f.from)
                  λ from1. last_calloc-Keeps _ _ refl

finish_frame-Keeps :
    (level address : Option Bytes) (f : FrameFields) → GivesFrame (finish_frame level address f)
unfolding finish_frame
finish_frame-Keeps (some level) (some address) f = stack_frame-Keeps level (known_address address) f
finish_frame-Keeps none address f = assert-fails
finish_frame-Keeps (some level) none f = assert-fails

frame_of-IsSound : (r : MiResult) → IsSound (frame_of r)
unfolding frame_of
frame_of-IsSound (tuple v sub next) = Keeps-bind _ (compared v) _ (compared-IsSound v) λ name.
    Keeps-bind _ (assert (streq name (codes "frame"))) _ (assert-IsSound _) λ _.
      Keeps-bind _ (assert (not (is_null sub))) _ (assert-IsSound _)
        λ _. Keeps-bind _ (assert (is_null next)) _ (assert-IsSound _) λ _. pure-Keeps _ tt
frame_of-IsSound null = assert-fails
frame_of-IsSound (cstring v t next) = assert-fails
frame_of-IsSound (list v sub next) = assert-fails

pub stack_info_frame-Keeps :
    (r : MiResultRecord) → Keeps (λ c. kind_of c ≡ kind_stack_info_frame) (stack_info_frame r)
unfolding stack_info_frame
stack_info_frame-Keeps r = Keeps-bind _ (assert (is_done r.result_class)) _ (assert-IsSound _) λ _.
    Keeps-bind _ (assert (not (is_null r.result))) _ (assert-IsSound _) λ _.
      Keeps-bind _ (frame_of r.result) _ (frame_of-IsSound r.result) λ sub.
        Keeps-bind _ (frame_fields sub no_frame_fields) _ (frame_fields-IsSound sub no_frame_fields)
          λ f. finish_frame-Keeps f.level f.address f
