-- ===== src/Command/RoundTrip.antt =====
-- Descriptions of source files and frames in MI, and what the commands read back from them.
use gdbwire.Base.{
  ◌≡◌, refl, Option, none, some, List, [], ◌∷◌, Bytes, codes, value, bind_exec, arith, ℤ, atoi,
  to_unsigned, pos, streq, false,
}
use gdbwire.Pt.{MiResult, null, cstring, tuple, list, MiResultRecord, done, strdup}
use gdbwire.Command.Types.{
  MiSourceFile, MiDebugFullyRead, debug_unknown, debug_true, debug_false, MiStackFrame,
  stack_info_frame_command, file_list_exec_source_files_command,
}
use gdbwire.Command.Files.{
  set_file_field, file_fields, no_file_fields, source_file_node, source_files,
  file_list_exec_source_files,
}
use gdbwire.Command.Granted.{strdup-granted, refused_self}
use gdbwire.Command.Frame.{
  FrameFields, set_frame_field, frame_fields, no_frame_fields, known_address, line_number,
  stack_frame, finish_frame, stack_info_frame,
}

-- A record with the result class `done`.
abbrev pub done_record : Option Bytes → MiResult → MiResultRecord
done_record token r = record { token = token; result_class = done; result = r }

-- A field that may be absent, in front of the other fields.
abbrev pub field : Bytes → Option Bytes → MiResult → MiResult
field name none rest = rest
field name (some text) rest = cstring (some name) text rest

abbrev pub debug_text : MiDebugFullyRead → Option Bytes
debug_text debug_unknown = none
debug_text debug_true = some (codes "true")
debug_text debug_false = some (codes "false")

-- `{file="...",fullname="...",debug-fully-read="..."}` for each file
abbrev pub describe : MiSourceFile → MiResult
describe f = cstring (some (codes "file")) f.file (
    field (codes "fullname") f.fullname
      (field (codes "debug-fully-read") (debug_text f.debug_fully_read) null))

abbrev pub describe_all : List MiSourceFile → MiResult
describe_all [] = null
describe_all (f ∷ fs) = tuple none (describe f) (describe_all fs)

file_fields-describe :
    (file : Bytes) (fullname : Option Bytes) (debug : MiDebugFullyRead)
    → file_fields
        (describe (record { file = file; fullname = fullname; debug_fully_read = debug }))
        no_file_fields
        []
      ≡ value (record { file = some file; fullname = fullname; debug_fully_read = debug }) []
unfolding file_fields set_file_field
file_fields-describe file none debug_unknown = refl
file_fields-describe file none debug_true = refl
file_fields-describe file none debug_false = refl
file_fields-describe file (some fullname) debug_unknown = refl
file_fields-describe file (some fullname) debug_true = refl
file_fields-describe file (some fullname) debug_false = refl

source_file_node-granted :
    (file : Bytes) (fullname : Option Bytes) (debug : MiDebugFullyRead)
    → source_file_node
        (record { file = some file; fullname = fullname; debug_fully_read = debug })
        []
      ≡ value (record { file = file; fullname = fullname; debug_fully_read = debug }) []
unfolding source_file_node strdup
source_file_node-granted file none debug = refl
source_file_node-granted file (some fullname) debug = refl

source_files-describe_all :
    (fs : List MiSourceFile) → source_files (describe_all fs) [] ≡ value fs []
unfolding source_files
source_files-describe_all [] = refl
source_files-describe_all (f ∷ fs) = rw (
  file_fields-describe f.file f.fullname f.debug_fully_read,
  source_file_node-granted f.file f.fullname f.debug_fully_read,
  source_files-describe_all fs,
)

-- The command reads back every list of source files from its description, in order, with the
-- optional fields that are there, if no allocation is refused.
pub file_list_exec_source_files-describe_all :
    (token : Option Bytes) (fs : List MiSourceFile)
    → file_list_exec_source_files
        (done_record token (list (some (codes "files")) (describe_all fs) null))
        []
      ≡ value (file_list_exec_source_files_command fs) []
unfolding file_list_exec_source_files
file_list_exec_source_files-describe_all token fs = rw (source_files-describe_all fs)

-- What GDB says of a frame. The fields that may be absent are options, and so is the address.
pub record FrameText : Type 0 where
  pub level : Bytes
  pub address : Option Bytes
  pub func : Option Bytes
  pub file : Option Bytes
  pub fullname : Option Bytes
  pub line : Option Bytes
  pub from : Option Bytes

abbrev pub address_text : Option Bytes → Bytes
address_text none = codes "<unavailable>"
address_text (some a) = a

-- `{level="...",addr="...",func="...",file="...",fullname="...",line="...",from="..."}`
abbrev pub describe_frame : FrameText → MiResult
describe_frame d = cstring (some (codes "level")) d.level (
    cstring (some (codes "addr")) (address_text d.address) (
      field (codes "func") d.func (
        field (codes "file") d.file (
          field (codes "fullname") d.fullname
            (field (codes "line") d.line (field (codes "from") d.from null))))))

fields_of : FrameText → FrameFields
fields_of d = record {
  level = some d.level;
  address = some (address_text d.address);
  func = d.func;
  file = d.file;
  fullname = d.fullname;
  line = d.line;
  from = d.from;
}

frame_fields-describe_frame :
    (d : FrameText) → frame_fields (describe_frame d) no_frame_fields [] ≡ value (fields_of d) []
unfolding frame_fields set_frame_field fields_of
frame_fields-describe_frame d = ground arith

-- An address is not the text that GDB has for none.
abbrev pub IsKnown : Option Bytes → Type 0
IsKnown none = Unit {0}
IsKnown (some a) = streq a (codes "<unavailable>") ≡ false

-- The number of a line, or 0 where GDB says none.
abbrev pub LineReads : Option Bytes → ℤ → Type 0
LineReads none l = l ≡ pos 0
LineReads (some text) l = atoi text ≡ some l

-- The frame that is read.
abbrev pub frame_read : FrameText → ℤ → ℤ → MiStackFrame
frame_read d n l = record {
  level = to_unsigned n;
  address = d.address;
  func = d.func;
  file = d.file;
  fullname = d.fullname;
  line = l;
  from = d.from;
}

known_address-text : (a : Option Bytes) → IsKnown a → known_address (address_text a) ≡ a
unfolding known_address
known_address-text none h = refl
known_address-text (some a) h = rw h refl

line_number-Reads : (o : Option Bytes) (l : ℤ) → LineReads o l → line_number o [] ≡ value l []
line_number-Reads none l h = rw h refl
line_number-Reads (some text) l h = rw h refl

stack_frame-granted :
    (d : FrameText) (n l : ℤ)
    → atoi d.level ≡ some n
    → IsKnown d.address
    → LineReads d.line l
    → stack_frame d.level (known_address (address_text d.address)) (fields_of d) []
      ≡ value (stack_info_frame_command (frame_read d n l)) []
unfolding stack_frame fields_of
stack_frame-granted d n l e known k =
    simp
      (
        e,
        known_address-text d.address known,
        line_number-Reads d.line l k,
        strdup-granted,
        refused_self,
      )
      (rw (refused_self d.from, bind_exec))

-- The command reads every field of a frame that GDB describes: `<unavailable>` as no address, an
-- absent line as 0, and the level as an `int` converted to `unsigned`, if the two numbers are in
-- the range of `int`, an address is not the text `<unavailable>` and no allocation is refused.
pub stack_info_frame-describe_frame :
    (token : Option Bytes) (d : FrameText) (n l : ℤ)
    → atoi d.level ≡ some n
    → IsKnown d.address
    → LineReads d.line l
    → stack_info_frame (done_record token (tuple (some (codes "frame")) (describe_frame d) null)) []
      ≡ value (stack_info_frame_command (frame_read d n l)) []
unfolding stack_info_frame finish_frame
stack_info_frame-describe_frame token d n l e known k =
    rw (frame_fields-describe_frame d) (unfold fields_of in stack_frame-granted d n l e known k)
