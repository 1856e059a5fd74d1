-- ===== src/Print/Reply.antt =====
-- `gdbwire_interpreter_exec` of src/gdbwire.c on the reply that GDB writes.
use gdbwire.Base.{
  ◌+◌, ◌<◌, ◌≡◌, refl, ap, sym, ◌∙◌, subst, Option, none, some, List, [], ◌∷◌, true, Bytes, codes,
  length, ℤ, atoi, Mem, M, Exec, value, stop, fault, Ends, all_granted, GdbwireResult, gdbwire_ok,
  Bool, false, ◌&&◌, arith,
}
use gdbwire.StringBuf.{size_mod}
use gdbwire.Pt.{MiResult, null, unsupported, cstring, tuple, list, MiResultRecord}
use gdbwire.Command.Types.{
  MiCommand, MiCommandKind, kind_file_list_exec_source_files, kind_stack_info_frame, MiSourceFile,
  file_list_exec_source_files_command, stack_info_frame_command,
}
use gdbwire.Command.Get.{get_mi_command}
use gdbwire.Command.Contract.{Alike}
use gdbwire.Command.Contract.Get.{answer_of, get_mi_command-granted}
use gdbwire.Command.RoundTrip.{
  debug_text, field, describe_all, file_list_exec_source_files-describe_all, FrameText,
  describe_frame, frame_read, IsKnown, LineReads, stack_info_frame-describe_frame,
}
use gdbwire.Grammar.Machine.{Pstate, at_start}
use gdbwire.MiParser.Texts.{nul_free}
use gdbwire.Wire.{interpreter_exec}
use gdbwire.Wire.Create.{Starts}
use gdbwire.Wire.Tokens.{parse_output}
use gdbwire.Wire.Exec.{Answerable, interpreter_exec-result}
use gdbwire.Lexer.{is_word, is_letter}
use gdbwire.Lexer.Absent.{IsName, IsWordByte}
use gdbwire.MiParser.Lines.{AllBytes}
use gdbwire.Print.{result_said, line, entry, result_names, texts_read, texts_shown}
use gdbwire.Grammar.Unescape.{as_read-shown}
use gdbwire.Print.Words.{IsToken, AreNamed, IsSayable}
use gdbwire.Print.Derived.{line-Output}
use gdbwire.Print.Calls.{line-IsLine}

get_mi_command-Answerable :
    (kind : MiCommandKind) (r : MiResultRecord) (a : GdbwireResult × Option MiCommand)
    → get_mi_command kind r [] ≡ value a []
    → Answerable kind r a
get_mi_command-Answerable kind r a e = record {
  answers = λ mem g.
      alike (get_mi_command kind r mem)
        (subst (λ x. Alike x (get_mi_command kind r mem)) e (get_mi_command-granted kind r mem g));
}
  where
    alike :
        (x : Exec (GdbwireResult × Option MiCommand))
        → Alike (value a []) x
        → Ends (λ y m. (y ≡ a) × (all_granted m ≡ true)) x
    alike (value b m1) h = (sym h.0, h.2)
    alike (stop d m1) h = absurd h
    alike fault h = absurd h

-- Texts without octal are given back as they are.
texts_read-shown : (r : MiResult) → texts_shown r ≡ true → texts_read r ≡ r
texts_read-shown null h = refl
texts_read-shown (cstring v t next) h =
    rw (as_read-shown t (ground arith), texts_read-shown next (ground arith)) refl
texts_read-shown (tuple v sub next) h =
    rw (texts_read-shown sub (ground arith), texts_read-shown next (ground arith)) refl
texts_read-shown (list v sub next) h =
    rw (texts_read-shown sub (ground arith), texts_read-shown next (ground arith)) refl

-- The reply of a result record without octal: what gdbwire_get_mi_command returns for the record
-- that GDB meant.
pub interpreter_exec-said :
    (new_parser : M (Option Pstate)) (token : Option Bytes) (name : Bytes) (r : MiResult)
    (kind : MiCommandKind) (a : GdbwireResult × Option MiCommand) (mem : Mem)
    → Starts new_parser at_start
    → IsSayable (result_said token name r)
    → length (line (result_said token name r)) + 4097 < size_mod
    → nul_free (line (result_said token name r)) ≡ true
    → texts_shown r ≡ true
    → get_mi_command kind
        (record { token = token; result_class = entry result_names unsupported name; result = r })
        []
      ≡ value a []
    → all_granted mem ≡ true
    → Ends
        (λ x m. x ≡ a)
        (interpreter_exec parse_output new_parser (line (result_said token name r)) kind mem)
interpreter_exec-said new_parser token name r kind a mem starts n lt free shown e g =
    let s = result_said token name r in
    interpreter_exec-result new_parser (line s) _ kind a mem starts (line-IsLine s n) lt free
      (line-Output s n)
      (get_mi_command-Answerable kind _ a (
        ap
          (λ x.
            get_mi_command kind
              (record {
                token = token;
                result_class = entry result_names unsupported name;
                result = x;
              })
              [])
          (texts_read-shown r shown)
        ∙ e))
      g

abbrev are_words : Bytes → Bool
are_words [] = true
are_words (c ∷ cs) = is_word c && are_words cs

abbrev pub is_name : Bytes → Bool
is_name [] = false
is_name (c ∷ cs) = is_letter c && are_words cs

are_words_sound : (u : Bytes) → are_words u ≡ true → AllBytes IsWordByte u
are_words_sound [] h = tt
are_words_sound (c ∷ cs) h = (ground arith, are_words_sound cs (ground arith))

pub is_name_sound : (u : Bytes) → is_name u ≡ true → IsName u
is_name_sound [] h = absurd (ground arith)
is_name_sound (c ∷ cs) h = (ground arith, are_words_sound cs (ground arith))

pub field-AreNamed :
    (name : Bytes) (text : Option Bytes) (rest : MiResult)
    → is_name name ≡ true
    → AreNamed rest
    → AreNamed (field name text rest)
field-AreNamed name none rest h k = k
field-AreNamed name (some text) rest h k = (is_name_sound name h, k)

describe_all-AreNamed : (fs : List MiSourceFile) → AreNamed (describe_all fs)
describe_all-AreNamed [] = tt
describe_all-AreNamed (f ∷ fs) = (
  tt,
  (
    is_name_sound (codes "file") refl,
    field-AreNamed (codes "fullname") f.fullname _ refl
        (field-AreNamed (codes "debug-fully-read") (debug_text f.debug_fully_read) null refl tt),
  ),
  describe_all-AreNamed fs,
)

describe_frame-AreNamed : (d : FrameText) → AreNamed (describe_frame d)
describe_frame-AreNamed d = (
  is_name_sound (codes "level") refl,
  (
    is_name_sound (codes "addr") refl,
    field-AreNamed (codes "func") d.func _ refl (
        field-AreNamed (codes "file") d.file _ refl (
          field-AreNamed (codes "fullname") d.fullname _ refl (
            field-AreNamed (codes "line") d.line _ refl
              (field-AreNamed (codes "from") d.from null refl tt)))),
  ),
)

-- `^done` with results, as GDB writes it.
abbrev pub done_line : Option Bytes → MiResult → Bytes
done_line token r = line (result_said token (codes "done") r)

abbrev pub files_reply : List MiSourceFile → MiResult
files_reply fs = list (some (codes "files")) (describe_all fs) null

abbrev pub frame_reply : FrameText → MiResult
frame_reply d = tuple (some (codes "frame")) (describe_frame d) null

-- From the bytes of GDB's reply to the command: for every list of source files, whose names have
-- none of the bytes that GDB writes as octal, `gdbwire_interpreter_exec` gives the list back from the
-- line with which GDB describes it, where the line has no NUL, its size is in range, the allocator
-- refuses nothing and Bison's stack has room.
pub interpreter_exec-describe_all :
    (new_parser : M (Option Pstate)) (token : Option Bytes) (fs : List MiSourceFile) (mem : Mem)
    → Starts new_parser at_start
    → IsToken token
    → length (done_line token (files_reply fs)) + 4097 < size_mod
    → nul_free (done_line token (files_reply fs)) ≡ true
    → texts_shown (files_reply fs) ≡ true
    → all_granted mem ≡ true
    → Ends
        (λ x m. x ≡ (gdbwire_ok, some (file_list_exec_source_files_command fs)))
        (interpreter_exec parse_output new_parser
          (done_line token (files_reply fs))
          kind_file_list_exec_source_files
          mem)
unfolding get_mi_command
interpreter_exec-describe_all new_parser token fs mem starts n lt free shown g =
    interpreter_exec-said new_parser token (codes "done") (files_reply fs)
      kind_file_list_exec_source_files _ mem starts
      (
        n,
        is_name_sound (codes "done") refl,
        (is_name_sound (codes "files") refl, describe_all-AreNamed fs, tt),
      )
      lt free shown (ap answer_of (file_list_exec_source_files-describe_all token fs)) g

-- The same for a frame, of which GDB may leave out five fields and which has an address or
-- `<unavailable>`; the level and the line, where it is there, are in the range of `int`.
pub interpreter_exec-describe_frame :
    (new_parser : M (Option Pstate)) (token : Option Bytes) (d : FrameText) (n l : ℤ) (mem : Mem)
    → Starts new_parser at_start
    → IsToken token
    → atoi d.level ≡ some n
    → IsKnown d.address
    → LineReads d.line l
    → length (done_line token (frame_reply d)) + 4097 < size_mod
    → nul_free (done_line token (frame_reply d)) ≡ true
    → texts_shown (frame_reply d) ≡ true
    → all_granted mem ≡ true
    → Ends
        (λ x m. x ≡ (gdbwire_ok, some (stack_info_frame_command (frame_read d n l))))
        (interpreter_exec parse_output new_parser
          (done_line token (frame_reply d))
          kind_stack_info_frame
          mem)
unfolding get_mi_command
interpreter_exec-describe_frame new_parser token d n l mem starts t e known k lt free shown g =
    interpreter_exec-said new_parser token (codes "done") (frame_reply d) kind_stack_info_frame _
      mem starts
      (
        t,
        is_name_sound (codes "done") refl,
        (is_name_sound (codes "frame") refl, describe_frame-AreNamed d, tt),
      )
      lt free shown (ap answer_of (stack_info_frame-describe_frame token d n l e known k)) g
