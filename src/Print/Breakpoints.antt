-- ===== src/Print/Breakpoints.antt =====
-- `gdbwire_interpreter_exec` of src/gdbwire.c on the table of breakpoints that GDB writes.
use gdbwire.Base.{
  ◌+◌, ◌<◌, ◌≡◌, refl, ap, Option, some, List, [], ◌∷◌, true, Bytes, codes, length, Mem, M, Ends,
  all_granted, gdbwire_ok,
}
use gdbwire.StringBuf.{size_mod}
use gdbwire.Pt.{MiResult, null}
use gdbwire.Command.Types.{kind_break_info, break_info_command}
use gdbwire.Command.Get.{get_mi_command}
use gdbwire.Command.Contract.Get.{answer_of}
use gdbwire.Command.Table.{
  BreakText, BreakShown, describe_break, describe_locations, disposition_text, described,
  describe_table, table_reply, table_read, AreShown,
}
use gdbwire.Command.Table.RoundTrip.{break_info-describe_table}
use gdbwire.Command.Attach.{tuples}
use gdbwire.Grammar.Machine.{Pstate, at_start}
use gdbwire.MiParser.Texts.{nul_free}
use gdbwire.Wire.{interpreter_exec}
use gdbwire.Wire.Create.{Starts}
use gdbwire.Wire.Tokens.{parse_output}
use gdbwire.Print.{texts_shown}
use gdbwire.Print.Words.{IsToken, AreNamed}
use gdbwire.Print.Reply.{done_line, interpreter_exec-said, field-AreNamed, is_name_sound}

describe_break-AreNamed :
    (d : BreakText) (rest : MiResult) → AreNamed rest → AreNamed (describe_break d rest)
describe_break-AreNamed d rest h = (
  is_name_sound (codes "number") refl,
  field-AreNamed (codes "type") d.type _ refl (
      field-AreNamed (codes "catch-type") d.catch_type _ refl (
        field-AreNamed (codes "disp") (disposition_text d.disposition) _ refl (
          is_name_sound (codes "enabled") refl,
          field-AreNamed (codes "addr") d.address _ refl (
              field-AreNamed (codes "func") d.func _ refl (
                field-AreNamed (codes "file") d.file _ refl (
                  field-AreNamed (codes "fullname") d.fullname _ refl (
                    field-AreNamed (codes "line") d.line _ refl (
                      field-AreNamed (codes "times") d.times _ refl (
                        field-AreNamed (codes "original-location") d.original_location rest refl
                          h)))))),
        ))),
)

described-AreNamed : (ls : List BreakText) → AreNamed (tuples (described ls) null)
described-AreNamed [] = tt
described-AreNamed (l ∷ ls) = (tt, describe_break-AreNamed l null tt, described-AreNamed ls)

describe_locations-AreNamed : (ls : List BreakText) → AreNamed (describe_locations ls)
describe_locations-AreNamed [] = tt
describe_locations-AreNamed (l ∷ ls) =
    (is_name_sound (codes "locations") refl, described-AreNamed (l ∷ ls), tt)

describe_table-AreNamed : (bs : List BreakShown) → AreNamed (describe_table bs)
describe_table-AreNamed [] = tt
describe_table-AreNamed (b ∷ bs) = (
  is_name_sound (codes "bkpt") refl,
  describe_break-AreNamed b.text _ (describe_locations-AreNamed b.places),
  describe_table-AreNamed bs,
)

-- From the bytes of GDB's reply to the command: for every table of breakpoints with their
-- locations, whose numbers of lines and hits are in the range of `unsigned long`, where a
-- location's number and no other has a dot, `gdbwire_interpreter_exec` gives the breakpoints back
-- from the line with which GDB describes them. The texts have none of the bytes that GDB writes as
-- octal, the line has no NUL, its size is in range, the variables of its header are names, the
-- allocator refuses nothing, and Bison's stack has room.
pub interpreter_exec-describe_table :
    (new_parser : M (Option Pstate)) (token : Option Bytes) (rows cols : Bytes) (hdr : MiResult)
    (bs : List BreakShown) (mem : Mem)
    → Starts new_parser at_start
    → IsToken token
    → AreNamed hdr
    → AreShown bs
    → length (done_line token (table_reply rows cols hdr bs)) + 4097 < size_mod
    → nul_free (done_line token (table_reply rows cols hdr bs)) ≡ true
    → texts_shown (table_reply rows cols hdr bs) ≡ true
    → all_granted mem ≡ true
    → Ends
        (λ x m. x ≡ (gdbwire_ok, some (break_info_command (table_read bs))))
        (interpreter_exec parse_output new_parser
          (done_line token (table_reply rows cols hdr bs))
          kind_break_info
          mem)
unfolding get_mi_command
interpreter_exec-describe_table new_parser token rows cols hdr bs mem starts n k h lt free shown g =
    interpreter_exec-said new_parser token (codes "done") (table_reply rows cols hdr bs)
      kind_break_info _ mem starts
      (
        n,
        is_name_sound (codes "done") refl,
        (
          is_name_sound (codes "BreakpointTable") refl,
          (
            is_name_sound (codes "nr_rows") refl,
            (
              is_name_sound (codes "nr_cols") refl,
              (
                is_name_sound (codes "hdr") refl,
                k,
                (is_name_sound (codes "body") refl, describe_table-AreNamed bs, tt),
              ),
            ),
          ),
          tt,
        ),
      )
      lt free shown (ap answer_of (break_info-describe_table token rows cols hdr bs h)) g
