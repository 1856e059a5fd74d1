-- ===== src/Tests/Breakpoints.antt =====
-- A table of breakpoints, from GDB's reply to the command.
use gdbwire.Base.{
  ◌≡◌, refl, none, some, List, [], ◌∷◌, true, Bytes, codes, value, Ends, arith, strtoul_whole,
  gdbwire_ok,
}
use gdbwire.Pt.{MiResult, null, cstring, tuple}
use gdbwire.Command.Types.{disp_keep, kind_break_info, break_info_command}
use gdbwire.Command.BreakInfo.{break_info}
use gdbwire.Command.RoundTrip.{done_record}
use gdbwire.Command.Table.{BreakText, BreakShown, table_reply, table_read, AreShown}
use gdbwire.Command.Table.RoundTrip.{break_info-describe_table}
use gdbwire.Wire.{interpreter_exec}
use gdbwire.Wire.Tokens.{parse_output}
use gdbwire.Print.Reply.{done_line}
use gdbwire.Print.Breakpoints.{interpreter_exec-describe_table}
use gdbwire.Tests.Reply.{new_state, new_state-Starts}

-- A location in `main`.
abbrev location : Bytes → Bytes → BreakText
location number address = record {
  number = number;
  type = none;
  catch_type = none;
  disposition = disp_keep;
  enabled = true;
  address = some address;
  func = some (codes "main");
  file = none;
  fullname = none;
  line = some (codes "17");
  times = none;
  original_location = none;
}

-- The breakpoint 1 has two locations, the breakpoint 2 has none.
abbrev two_breakpoints : List BreakShown
two_breakpoints =
    record {
      text = record (location (codes "1") (codes "<MULTIPLE>")) { times = some (codes "3") };
      places = location (codes "1.1") (codes "0x10") ∷ location (codes "1.2") (codes "0x20") ∷ [];
    }
    ∷ record { text = location (codes "2") (codes "0x30"); places = [] }
    ∷ []

two_breakpoints-AreShown : AreShown two_breakpoints
unfolding strtoul_whole
two_breakpoints-AreShown = (
  refl,
  ((17, refl), (3, refl)),
  (refl, ((17, refl), tt), (refl, ((17, refl), tt), tt)),
  (refl, ((17, refl), tt), tt, tt),
)

-- `{width="7"}`
abbrev header : MiResult
header = tuple none (cstring (some (codes "width")) (codes "7") null) null

break_info-describe_table_example :
    break_info (done_record none (table_reply (codes "2") (codes "6") header two_breakpoints)) []
    ≡ value (break_info_command (table_read two_breakpoints)) []
break_info-describe_table_example =
    break_info-describe_table none (codes "2") (codes "6") header two_breakpoints
      two_breakpoints-AreShown

interpreter_exec-describe_table_example :
    Ends
      (λ x m. x ≡ (gdbwire_ok, some (break_info_command (table_read two_breakpoints))))
      (interpreter_exec parse_output new_state
        (done_line none (table_reply (codes "2") (codes "6") header two_breakpoints))
        kind_break_info
        (true ∷ []))
interpreter_exec-describe_table_example =
    interpreter_exec-describe_table new_state none (codes "2") (codes "6") header two_breakpoints
      (true ∷ []) new_state-Starts tt (tt, ((refl, (refl, (refl, (refl, (refl, tt))))), tt), tt)
      two_breakpoints-AreShown (omega arith) refl refl refl
