-- ===== src/Command/Table/RoundTrip.antt =====
-- `break_info` of src/gdbwire_mi_command.c on the table of breakpoints that GDB describes.
use gdbwire.Base.{
  ◌≡◌, refl, ap, sym, ◌∙◌, Option, some, List, [], ◌∷◌, Bytes, codes, value, gdbwire_ok,
}
use gdbwire.Pt.{MiResult, null}
use gdbwire.Command.Types.{MiBreakpoint, Breakpoints, bkpt, break_info_command}
use gdbwire.Command.Break.{append_breakpoints, set_parent, break_fields, break_info_for_breakpoint}
use gdbwire.Command.Granted.{finish_breakpoint-granted}
use gdbwire.Command.BreakInfo.{body_breakpoints, break_info, find_body, table_of}
use gdbwire.Command.Locations.{read-locations_field}
use gdbwire.Command.Attach.{
  AreLocations, nil, cons, chain, children, set_parent-chain, body_breakpoints-plain,
  append_breakpoints-null,
}
use gdbwire.Command.RoundTrip.{done_record}
use gdbwire.Command.Table.{
  BreakText, describe_break, fields_read, break_read, IsReadable, BreakShown, described,
  describe_locations, describe_table, table_reply, all_read, table_read, AreDotted, AreShown,
}
use gdbwire.Command.Table.Fields.{break_fields-describe_break}

location_read :
    (d : BreakText)
    → IsReadable d
    → break_info_for_breakpoint (describe_break d null) []
      ≡ value (gdbwire_ok, bkpt (break_read d) Breakpoints.null Breakpoints.null) []
unfolding break_info_for_breakpoint set_parent break_fields
location_read d (l, t) =
    rw
      (
        break_fields-describe_break d null l t,
        finish_breakpoint-granted d.number (fields_read d) refl,
      )
      refl

AreDotted-AreLocations :
    (ls : List BreakText) → AreDotted ls → AreLocations (described ls) (all_read ls)
AreDotted-AreLocations [] h = nil
AreDotted-AreLocations (l ∷ ls) h = cons (location_read l h.1) h.0 (AreDotted-AreLocations ls h.2)

-- A breakpoint with its locations.
shown_read :
    (d : BreakText) (ls : List BreakText)
    → IsReadable d
    → AreDotted ls
    → break_info_for_breakpoint (describe_break d (describe_locations ls)) []
      ≡ value
          (
            gdbwire_ok,
            bkpt (break_read d) (chain (children d.number (all_read ls))) Breakpoints.null,
          )
          []
shown_read d [] h k = location_read d h
shown_read d (l ∷ ls) (n, m) k =
    unfold break_info_for_breakpoint append_breakpoints in
    rw
      (
        break_fields-describe_break d (describe_locations (l ∷ ls)) n m,
        read-locations_field (fields_read d) refl (AreDotted-AreLocations (l ∷ ls) k),
        finish_breakpoint-granted d.number
            (record (fields_read d) { multi_breakpoints = chain (all_read (l ∷ ls)) }) refl,
        set_parent-chain d.number (all_read (l ∷ ls)),
      )
      refl

append_breakpoints-one :
    (a : Breakpoints) (i : MiBreakpoint) (multi rest : Breakpoints)
    → append_breakpoints (append_breakpoints a (bkpt i multi Breakpoints.null)) rest
      ≡ append_breakpoints a (bkpt i multi rest)
unfolding append_breakpoints
append_breakpoints-one Breakpoints.null i multi rest = refl
append_breakpoints-one (bkpt j m next) i multi rest =
    ap (bkpt j m) (append_breakpoints-one next i multi rest)

body_breakpoints-describe_table :
    (bs : List BreakShown) (acc : Breakpoints)
    → AreShown bs
    → body_breakpoints (describe_table bs) acc []
      ≡ value (append_breakpoints acc (table_read bs)) []
body_breakpoints-describe_table [] acc h =
    unfold body_breakpoints in ap (λ a. value a []) (sym (append_breakpoints-null acc))
body_breakpoints-describe_table (b ∷ bs) acc h =
    let multi : Breakpoints = chain (children b.text.number (all_read b.places)) in
    body_breakpoints-plain (some (codes "bkpt"))
      (describe_break b.text (describe_locations b.places)) (break_read b.text) multi
      (describe_table bs) acc refl (shown_read b.text b.places h.1 h.2) h.0
    ∙ body_breakpoints-describe_table bs
        (append_breakpoints acc (bkpt (break_read b.text) multi Breakpoints.null)) h.3
    ∙ ap (λ a. value a []) (append_breakpoints-one acc (break_read b.text) multi (table_read bs))

-- The command reads back every table of breakpoints from its description: in order, each breakpoint
-- with its locations below it and a link from each of them, and with the fields that may be absent,
-- if the numbers of lines and hits are in the range of `unsigned long`, a location's number and no
-- other has a dot, and no allocation is refused.
pub break_info-describe_table :
    (token : Option Bytes) (rows cols : Bytes) (hdr : MiResult) (bs : List BreakShown)
    → AreShown bs
    → break_info (done_record token (table_reply rows cols hdr bs)) []
      ≡ value (break_info_command (table_read bs)) []
unfolding break_info append_breakpoints find_body table_of
break_info-describe_table token rows cols hdr bs h =
    rw (body_breakpoints-describe_table bs Breakpoints.null h) refl
