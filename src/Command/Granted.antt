-- ===== src/Command/Granted.antt =====
-- The run of `break_info_for_breakpoint` where no allocation is refused.
use gdbwire.Base.{◌≡◌, refl, false, Option, none, some, [], Bytes, value, bind_exec_assoc, ◌>>=◌}
use mathlib.Core.Path.{fun_ext}
use gdbwire.Pt.{MiResult, null, cstring, tuple, list, append_after, strdup}
use gdbwire.Command.Types.{MiBreakpoint, Breakpoints, bkpt}
use gdbwire.Command.Common.{refused}
use gdbwire.Command.Break.{
  BreakFields, set_parent, Copies, copy_fields, any_refused, filled, finish_breakpoint,
  break_fields,
}

-- The breakpoint that is made of the fields of `bkpt={...}`, where no allocation is refused.
abbrev pub info_of : Bytes → BreakFields → MiBreakpoint
info_of n f = record {
  number = n;
  multi = f.multi;
  from_multi = f.from_multi;
  type = f.type;
  catch_type = f.catch_type;
  disposition = f.disp_kind;
  enabled = f.enabled;
  address = f.address;
  func_name = f.func_name;
  file = f.file;
  fullname = f.fullname;
  line = f.line;
  times = f.times;
  original_location = f.original_location;
  pending = f.pending;
  multi_breakpoint = none;
}

pub strdup-granted : (o : Option Bytes) → strdup o [] ≡ value o []
unfolding strdup
strdup-granted none = refl
strdup-granted (some t) = refl

pub refused_self : (o : Option Bytes) → refused o o ≡ false
refused_self none = refl
refused_self (some t) = refl

copies_of : Bytes → BreakFields → Copies
copies_of n f = record {
  number = some n;
  type = f.type;
  catch_type = f.catch_type;
  address = f.address;
  func_name = f.func_name;
  file = f.file;
  fullname = f.fullname;
  original_location = f.original_location;
}

copy_fields-granted : (n : Bytes) (f : BreakFields) → copy_fields n f [] ≡ value (copies_of n f) []
unfolding copy_fields copies_of
copy_fields-granted n f = simp strdup-granted

any_refused-granted :
    (n : Bytes) (f : BreakFields) → f.number ≡ some n → any_refused f (copies_of n f) ≡ false
unfolding any_refused copies_of
any_refused-granted n f e = rw e (simp refused_self)

pub finish_breakpoint-granted :
    (n : Bytes) (f : BreakFields)
    → f.number ≡ some n
    → finish_breakpoint f []
      ≡ value (f.result, bkpt (info_of n f) (set_parent n f.multi_breakpoints) Breakpoints.null) []
unfolding finish_breakpoint filled copies_of
finish_breakpoint-granted n f e = simp (e, strdup-granted, refused_self)

-- The fields of a breakpoint with more fields behind them.
pub break_fields-append :
    (p q : MiResult) (f : BreakFields)
    → break_fields (append_after p q) f ≡ (break_fields p f >>= break_fields q)
unfolding break_fields append_after
break_fields-append null q f = refl
break_fields-append (cstring v t next) q f =
    fun_ext λ mem. simp (bind_exec_assoc, break_fields-append next q)
break_fields-append (tuple v sub next) q f =
    fun_ext λ mem. simp (bind_exec_assoc, break_fields-append next q)
break_fields-append (list v sub next) q f =
    fun_ext λ mem. simp (bind_exec_assoc, break_fields-append next q)
