-- ===== src/Command/Break.antt =====
-- `break_info_for_breakpoint` of src/gdbwire_mi_command.c.
use gdbwire.Base.{
  ℕ, strtoul_whole, Bool, false, not, ◌||◌, Option, none, some, [], ◌∷◌, Bytes, codes, M, value,
  stop, fault, GdbwireResult, gdbwire_ok, gdbwire_assert, gdbwire_logic, gdbwire_nomem, pure, fail,
  assert, streq, mem_byte, ◌==◌, ◌>>=◌, ◌>>◌, if◌then◌else◌,
}
use gdbwire.Pt.{MiResult, null, cstring, tuple, list, strdup}
use gdbwire.Command.Types.{
  MiDisposition, disp_delete, disp_delete_next_stop, disp_disable, disp_keep, disp_unknown,
  Breakpoints, bkpt,
}
use gdbwire.Command.Common.{asserted, is_null, checked_calloc, refused}

-- The local variables of `break_info_for_breakpoint`.
pub record BreakFields : Type 0 where
  pub result : GdbwireResult
  pub number : Option Bytes
  pub multi : Bool
  pub from_multi : Bool
  pub catch_type : Option Bytes
  pub pending : Bool
  pub enabled : Bool
  pub address : Option Bytes
  pub type : Option Bytes
  pub disp_kind : MiDisposition
  pub func_name : Option Bytes
  pub file : Option Bytes
  pub fullname : Option Bytes
  pub line : ℕ
  pub times : ℕ
  pub original_location : Option Bytes
  pub multi_breakpoints : Breakpoints

abbrev pub no_break_fields : BreakFields
no_break_fields = record {
  result = gdbwire_ok;
  number = none;
  multi = false;
  from_multi = false;
  catch_type = none;
  pending = false;
  enabled = false;
  address = none;
  type = none;
  disp_kind = disp_unknown;
  func_name = none;
  file = none;
  fullname = none;
  line = 0;
  times = 0;
  original_location = none;
  multi_breakpoints = Breakpoints.null;
}

-- The chain on the text of "disp".
unfoldable pub disposition : Bytes → M MiDisposition
disposition text =
    if streq text (codes "del")
    then pure disp_delete
    else if streq text (codes "dstp")
    then pure disp_delete_next_stop
    else if streq text (codes "dis")
    then pure disp_disable
    else if streq text (codes "keep")
    then pure disp_keep
    else fail gdbwire_logic

-- `gdbwire_string_to_ulong` under its assertion
unfoldable pub ulong : Bytes → M ℕ
ulong text = elim (strtoul_whole text) [ none ↦ fail gdbwire_assert | some n ↦ pure n ]

-- `strstr(number, ".") != NULL`
abbrev pub has_dot : Bytes → Bool
has_dot number = mem_byte b'.' number

-- `cstring[0] == 'y'`
abbrev pub begins_yes : Bytes → Bool
begins_yes [] = false
begins_yes (c ∷ cs) = c == b'y'

-- The chain on the variable of a result whose kind is GDBWIRE_MI_CSTRING.
unfoldable pub set_break_field : Bytes → Bytes → BreakFields → M BreakFields
unfolding disposition ulong
set_break_field name text f =
    if streq name (codes "number")
    then pure (record f { number = some text; from_multi = f.from_multi || has_dot text })
    else if streq name (codes "enabled")
    then pure (record f { enabled = begins_yes text })
    else if streq name (codes "addr")
    then pure (record f {
      multi = streq text (codes "<MULTIPLE>");
      pending = streq text (codes "<PENDING>");
      address = some text;
    })
    else if streq name (codes "catch-type")
    then pure (record f { catch_type = some text })
    else if streq name (codes "type")
    then pure (record f { type = some text })
    else if streq name (codes "disp")
    then (disposition text >>= λ d. pure (record f { disp_kind = d }))
    else if streq name (codes "func")
    then pure (record f { func_name = some text })
    else if streq name (codes "file")
    then pure (record f { file = some text })
    else if streq name (codes "fullname")
    then pure (record f { fullname = some text })
    else if streq name (codes "line")
    then (ulong text >>= λ n. pure (record f { line = n }))
    else if streq name (codes "times")
    then (ulong text >>= λ n. pure (record f { times = n }))
    else if streq name (codes "original-location")
    then pure (record f { original_location = some text })
    else if streq name (codes "locations")
    then fail gdbwire_assert
    else pure f

-- The variables whose branch asserts the kind GDBWIRE_MI_CSTRING.
unfoldable pub wants_cstring : Bytes → Bool
wants_cstring name =
    streq name (codes "number")
    || streq name (codes "enabled")
    || streq name (codes "addr")
    || streq name (codes "catch-type")
    || streq name (codes "type")
    || streq name (codes "disp")
    || streq name (codes "func")
    || streq name (codes "file")
    || streq name (codes "fullname")
    || streq name (codes "line")
    || streq name (codes "times")
    || streq name (codes "original-location")

-- The list with `last` behind its last breakpoint.
unfoldable pub append_breakpoints : Breakpoints → Breakpoints → Breakpoints
append_breakpoints Breakpoints.null last = last
append_breakpoints (bkpt info multi next) last = bkpt info multi (append_breakpoints next last)

-- The loop that sets `multi_breakpoint` throughout a list.
unfoldable pub set_parent : Bytes → Breakpoints → Breakpoints
set_parent parent Breakpoints.null = Breakpoints.null
set_parent parent (bkpt info multi next) =
    bkpt (record info { multi_breakpoint = some parent }) multi (set_parent parent next)

-- The copies of the texts, or that one of them was refused.
pub record Copies : Type 0 where
  pub number : Option Bytes
  pub type : Option Bytes
  pub catch_type : Option Bytes
  pub address : Option Bytes
  pub func_name : Option Bytes
  pub file : Option Bytes
  pub fullname : Option Bytes
  pub original_location : Option Bytes

unfoldable pub copy_fields : Bytes → BreakFields → M Copies
copy_fields number f = do
  number1 ← strdup (some number)
  type1 ← strdup f.type
  catch_type1 ← strdup f.catch_type
  address1 ← strdup f.address
  func_name1 ← strdup f.func_name
  file1 ← strdup f.file
  fullname1 ← strdup f.fullname
  original_location1 ← strdup f.original_location
  pure (record {
    number = number1;
    type = type1;
    catch_type = catch_type1;
    address = address1;
    func_name = func_name1;
    file = file1;
    fullname = fullname1;
    original_location = original_location1;
  })

-- The out of memory test.
unfoldable pub any_refused : BreakFields → Copies → Bool
any_refused f c =
    refused f.number c.number
    || refused f.type c.type
    || refused f.catch_type c.catch_type
    || refused f.address c.address
    || refused f.func_name c.func_name
    || refused f.file c.file
    || refused f.fullname c.fullname
    || refused f.original_location c.original_location

-- The breakpoint with its multiple locations.
unfoldable pub filled : Bytes → BreakFields → Copies → Breakpoints
filled number f c =
    bkpt
      (record {
        number = number;
        multi = f.multi;
        from_multi = f.from_multi;
        type = c.type;
        catch_type = c.catch_type;
        disposition = f.disp_kind;
        enabled = f.enabled;
        address = c.address;
        func_name = c.func_name;
        file = c.file;
        fullname = c.fullname;
        line = f.line;
        times = f.times;
        original_location = c.original_location;
        pending = f.pending;
        multi_breakpoint = none;
      })
      (set_parent number f.multi_breakpoints) Breakpoints.null

-- What follows the loop: the result code and `*bkpt`.
unfoldable pub finish_breakpoint : BreakFields → M (GdbwireResult × Breakpoints)
unfolding copy_fields any_refused filled set_parent
finish_breakpoint f = do
  number ← asserted f.number
  checked_calloc
  c ← copy_fields number f
  if any_refused f c
      then pure (gdbwire_nomem, Breakpoints.null)
      else pure (f.result, filled number f c)

-- The call for a location: an error code is kept, with no breakpoint.
abbrev pub attempt : M (GdbwireResult × Breakpoints) → M (GdbwireResult × Breakpoints)
attempt m mem = elim (m mem) [
  | value r mem1 ↦ value r mem1
  | stop code mem1 ↦ value (code, Breakpoints.null) mem1
  | fault ↦ fault
]

abbrev pub located : GdbwireResult × Breakpoints → BreakFields → BreakFields
located (code, b) f = record f {
  result = code;
  multi_breakpoints = append_breakpoints f.multi_breakpoints b;
}

-- `break_fields` is the loop over the results, and `locations` the loop over the locations, with
-- the call for each of them.
unfoldable mutual
  pub break_fields : MiResult → BreakFields → M BreakFields
  break_fields null f = pure f
  break_fields (cstring v text next) f = do
    name ← asserted v
    g ← set_break_field name text f
    break_fields next g
  break_fields (tuple v sub next) f = do
    name ← asserted v
    assert (not (wants_cstring name || streq name (codes "locations")))
    break_fields next f
  break_fields (list v sub next) f = do
    name ← asserted v
    assert (not (wants_cstring name))
    g ← (if streq name (codes "locations") then locations sub f else pure f)
    break_fields next g

  pub locations : MiResult → BreakFields → M BreakFields
  locations null f = pure f
  locations (tuple v sub next) f = do
    r ←
        attempt
          (assert (not (is_null sub)) >> (break_fields sub no_break_fields >>= finish_breakpoint))
    locations next (located r f)
  locations (cstring v text next) f = fail gdbwire_assert
  locations (list v sub next) f = fail gdbwire_assert

unfoldable pub break_info_for_breakpoint : MiResult → M (GdbwireResult × Breakpoints)
break_info_for_breakpoint mi_result = do
  assert (not (is_null mi_result))
  f ← break_fields mi_result no_break_fields
  finish_breakpoint f
