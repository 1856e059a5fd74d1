-- ===== src/Command/Table.antt =====
-- The table of breakpoints that the command of src/gdbwire_mi_command.c reads: what GDB says, and what
-- is to be read back.
pub mod Fields
pub mod RoundTrip
use gdbwire.Base.{
  ℕ, ◌≡◌, refl, ap, sym, ◌∙◌, Bool, true, false, Option, none, some, List, [], ◌∷◌, Bytes, codes,
  streq, value, bind_exec, strtoul_whole, gdbwire_ok,
}
use gdbwire.Pt.{MiResult, null, cstring, tuple, list}
use gdbwire.Command.Types.{
  MiDisposition, disp_delete, disp_delete_next_stop, disp_disable, disp_keep, disp_unknown,
  MiBreakpoint, Breakpoints, bkpt, break_info_command,
}
use gdbwire.Command.Break.{
  BreakFields, disposition, begins_yes, no_break_fields, has_dot, set_break_field,
  append_breakpoints, set_parent, break_fields, break_info_for_breakpoint, ulong,
}
use gdbwire.Command.Granted.{info_of, finish_breakpoint-granted}
use gdbwire.Command.BreakInfo.{body_breakpoints, break_info, find_body, table_of}
use gdbwire.Command.Locations.{locations_field, read-locations_field}
use gdbwire.Command.Attach.{
  AreLocations, nil, cons, chain, children, set_parent-chain, body_breakpoints-plain,
  append_breakpoints-null,
}
use gdbwire.Command.RoundTrip.{field, done_record}

-- What GDB says of a breakpoint or of a location. The fields that may be absent are options.
pub record BreakText : Type 0 where
  pub number : Bytes
  pub type : Option Bytes
  pub catch_type : Option Bytes
  pub disposition : MiDisposition
  pub enabled : Bool
  pub address : Option Bytes
  pub func : Option Bytes
  pub file : Option Bytes
  pub fullname : Option Bytes
  pub line : Option Bytes
  pub times : Option Bytes
  pub original_location : Option Bytes

abbrev pub disposition_text : MiDisposition → Option Bytes
disposition_text disp_delete = some (codes "del")
disposition_text disp_delete_next_stop = some (codes "dstp")
disposition_text disp_disable = some (codes "dis")
disposition_text disp_keep = some (codes "keep")
disposition_text disp_unknown = none

abbrev pub enabled_text : Bool → Bytes
enabled_text true = codes "y"
enabled_text false = codes "n"

-- The fields, in front of `rest`.
abbrev pub describe_break : BreakText → MiResult → MiResult
describe_break d rest = cstring (some (codes "number")) d.number (
    field (codes "type") d.type (
      field (codes "catch-type") d.catch_type (
        field (codes "disp") (disposition_text d.disposition) (
          cstring (some (codes "enabled")) (enabled_text d.enabled) (
            field (codes "addr") d.address (
              field (codes "func") d.func (
                field (codes "file") d.file (
                  field (codes "fullname") d.fullname (
                    field (codes "line") d.line (
                      field (codes "times") d.times
                        (field (codes "original-location") d.original_location rest)))))))))))

-- The number of a field; 0 where it is absent.
abbrev pub number_of : Option Bytes → ℕ
number_of none = 0
number_of (some text) = elim (strtoul_whole text) [ none ↦ 0 | some n ↦ n ]

-- The text of a number, or none.
abbrev pub IsNumber : Option Bytes → Type 0
IsNumber none = Unit {0}
IsNumber (some text) = (n : ℕ) × (strtoul_whole text ≡ some n)

-- An absent address sets no flag.
abbrev pub is_address : Bytes → Option Bytes → Bool
is_address word none = false
is_address word (some text) = streq text word

-- The local variables of the loop, where these fields were read.
abbrev pub partly :
    Bytes
    → Option Bytes
    → Option Bytes
    → MiDisposition
    → Bool
    → Option Bytes
    → Option Bytes
    → Option Bytes
    → Option Bytes
    → ℕ
    → ℕ
    → Option Bytes
    → BreakFields
partly number type catch_type disp enabled address func file fullname line times original = record {
  result = gdbwire_ok;
  number = some number;
  multi = is_address (codes "<MULTIPLE>") address;
  from_multi = has_dot number;
  catch_type = catch_type;
  pending = is_address (codes "<PENDING>") address;
  enabled = enabled;
  address = address;
  type = type;
  disp_kind = disp;
  func_name = func;
  file = file;
  fullname = fullname;
  line = line;
  times = times;
  original_location = original;
  multi_breakpoints = Breakpoints.null;
}

-- The fields that are read.
abbrev pub fields_read : BreakText → BreakFields
fields_read d =
    partly d.number d.type d.catch_type d.disposition d.enabled d.address d.func d.file d.fullname
      (number_of d.line) (number_of d.times) d.original_location

-- The breakpoint that is read.
abbrev pub break_read : BreakText → MiBreakpoint
break_read d = info_of d.number (fields_read d)

abbrev pub IsReadable : BreakText → Type 0
IsReadable d = IsNumber d.line × IsNumber d.times

-- A breakpoint and its locations.
pub record BreakShown : Type 0 where
  pub text : BreakText
  pub places : List BreakText

abbrev pub described : List BreakText → List MiResult
described [] = []
described (l ∷ ls) = describe_break l null ∷ described ls

-- The field `locations`, which is absent where there are none.
abbrev pub describe_locations : List BreakText → MiResult
describe_locations [] = null
describe_locations (l ∷ ls) = locations_field (described (l ∷ ls))

-- `bkpt={...}` for each breakpoint
abbrev pub describe_table : List BreakShown → MiResult
describe_table [] = null
describe_table (b ∷ bs) =
    tuple (some (codes "bkpt")) (describe_break b.text (describe_locations b.places))
      (describe_table bs)

-- `BreakpointTable={nr_rows="...",nr_cols="...",hdr=[...],body=[...]}`
abbrev pub table_reply : Bytes → Bytes → MiResult → List BreakShown → MiResult
table_reply rows cols hdr bs =
    tuple (some (codes "BreakpointTable"))
      (cstring (some (codes "nr_rows")) rows (
        cstring (some (codes "nr_cols")) cols
          (list (some (codes "hdr")) hdr (list (some (codes "body")) (describe_table bs) null))))
      null

abbrev pub all_read : List BreakText → List MiBreakpoint
all_read [] = []
all_read (l ∷ ls) = break_read l ∷ all_read ls

-- The breakpoints in order, each with its locations below it, which have a link back to it.
abbrev pub table_read : List BreakShown → Breakpoints
table_read [] = Breakpoints.null
table_read (b ∷ bs) =
    bkpt (break_read b.text) (chain (children b.text.number (all_read b.places))) (table_read bs)

-- A location has a dot in its number.
abbrev pub AreDotted : List BreakText → Type 0
AreDotted [] = Unit {0}
AreDotted (l ∷ ls) = (has_dot l.number ≡ true) × IsReadable l × AreDotted ls

-- A breakpoint has none.
abbrev pub AreShown : List BreakShown → Type 0
AreShown [] = Unit {0}
AreShown (b ∷ bs) =
    (has_dot b.text.number ≡ false) × IsReadable b.text × AreDotted b.places × AreShown bs
