-- ===== src/Command/Contract/Break.antt =====
-- The error codes and the kind of the breakpoint command.
use gdbwire.Base.{
  [], ap, none, fail, strtoul_whole, Option, ◌≡◌, refl, not, ◌||◌, some, Bytes, codes, M, streq,
  assert, GdbwireResult, gdbwire_ok, gdbwire_assert, gdbwire_logic, gdbwire_nomem, Exec, value,
  stop, fault, pure, ◌>>=◌, ◌>>◌, ℕ, if◌then◌else◌,
}
use gdbwire.Pt.{MiResult, null, cstring, tuple, list, MiResultRecord, strdup}
use gdbwire.Command.Types.{kind_of, kind_break_info, MiBreakpoint, Breakpoints, bkpt}
use gdbwire.Command.Common.{compared, asserted, is_done, is_null, checked_calloc}
use gdbwire.Command.Break.{
  BreakFields, no_break_fields, disposition, ulong, set_break_field, wants_cstring, copy_fields,
  any_refused, finish_breakpoint, attempt, located, break_fields, locations,
  break_info_for_breakpoint,
}
use gdbwire.Command.BreakInfo.{
  is_bkpt, attach_location, place, place_or_fail, body_breakpoints, find_body, table_of, break_info,
}
use gdbwire.Command.Contract.{
  pure-Keeps, undefined-Keeps, assert-fails, nomem-fails, logic-fails, Alike, Errs, Keeps, IsSound,
  Keeps-bind, Keeps-if, assert-IsSound, compared-IsSound, asserted-IsSound, Keeps-elim,
  checked_calloc-IsSound, strdup-IsSound,
}

disposition-IsSound : (text : Bytes) → IsSound (disposition text)
unfolding disposition
disposition-IsSound text = Keeps-if _ (streq text (codes "del")) _ _ (pure-Keeps _ tt) (
    Keeps-if _ (streq text (codes "dstp")) _ _ (pure-Keeps _ tt) (
      Keeps-if _ (streq text (codes "dis")) _ _ (pure-Keeps _ tt)
        (Keeps-if _ (streq text (codes "keep")) _ _ (pure-Keeps _ tt) (logic-fails))))

ulong-IsSound : (text : Bytes) → IsSound (ulong text)
unfolding ulong
ulong-IsSound text = read (strtoul_whole text)
  where
    read :
        (o : Option ℕ)
        → IsSound (elim o as (λ _. M ℕ) [ none ↦ fail gdbwire_assert | some n ↦ pure n ])
    read none = assert-fails
    read (some n) = pure-Keeps n tt

set_break_field-IsSound :
    (name text : Bytes) (f : BreakFields) → IsSound (set_break_field name text f)
unfolding set_break_field
set_break_field-IsSound name text f =
    Keeps-if _ (streq name (codes "number")) _ _ (pure-Keeps _ tt) (
      Keeps-if _ (streq name (codes "enabled")) _ _ (pure-Keeps _ tt) (
        Keeps-if _ (streq name (codes "addr")) _ _ (pure-Keeps _ tt) (
          Keeps-if _ (streq name (codes "catch-type")) _ _ (pure-Keeps _ tt) (
            Keeps-if _ (streq name (codes "type")) _ _ (pure-Keeps _ tt) (
              Keeps-if _ (streq name (codes "disp")) _ _
                (Keeps-bind _ (disposition text) _ (disposition-IsSound text) λ d. pure-Keeps _ tt)
                (Keeps-if _ (streq name (codes "func")) _ _ (pure-Keeps _ tt) (
                  Keeps-if _ (streq name (codes "file")) _ _ (pure-Keeps _ tt) (
                    Keeps-if _ (streq name (codes "fullname")) _ _ (pure-Keeps _ tt) (
                      Keeps-if _ (streq name (codes "line")) _ _
                        (Keeps-bind _ (ulong text) _ (ulong-IsSound text) λ n. pure-Keeps _ tt)
                        (Keeps-if _ (streq name (codes "times")) _ _
                          (Keeps-bind _ (ulong text) _ (ulong-IsSound text) λ n. pure-Keeps _ tt)
                          (Keeps-if _ (streq name (codes "original-location")) _ _ (pure-Keeps _ tt)
                            (Keeps-if _ (streq name (codes "locations")) _ _ (assert-fails)
                              (pure-Keeps _ tt)))))))))))))

copy_fields-IsSound : (number : Bytes) (f : BreakFields) → IsSound (copy_fields number f)
unfolding copy_fields
copy_fields-IsSound number f =
    Keeps-bind _ (strdup (some number)) _ (strdup-IsSound (some number)) λ _.
      Keeps-bind _ (strdup f.type) _ (strdup-IsSound f.type) λ _.
        Keeps-bind _ (strdup f.catch_type) _ (strdup-IsSound f.catch_type) λ _.
          Keeps-bind _ (strdup f.address) _ (strdup-IsSound f.address) λ _.
            Keeps-bind _ (strdup f.func_name) _ (strdup-IsSound f.func_name) λ _.
              Keeps-bind _ (strdup f.file) _ (strdup-IsSound f.file) λ _.
                Keeps-bind _ (strdup f.fullname) _ (strdup-IsSound f.fullname) λ _.
                  Keeps-bind _ (strdup f.original_location) _ (strdup-IsSound f.original_location)
                    λ _. pure-Keeps _ tt

finish_breakpoint-IsSound : (f : BreakFields) → IsSound (finish_breakpoint f)
unfolding finish_breakpoint
finish_breakpoint-IsSound f =
    Keeps-bind _ (asserted f.number) _ (asserted-IsSound f.number) λ number.
      Keeps-bind _ checked_calloc _ checked_calloc-IsSound λ _.
        Keeps-bind _ (copy_fields number f) _ (copy_fields-IsSound number f)
          λ c. Keeps-if _ (any_refused f c) _ _ (pure-Keeps _ tt) (pure-Keeps _ tt)

abbrev caught : Exec (GdbwireResult × Breakpoints) → Exec (GdbwireResult × Breakpoints)
caught e = elim e [
  | value r mem1 ↦ value r mem1
  | stop code mem1 ↦ value (code, Breakpoints.null) mem1
  | fault ↦ fault
]

caught-Alike :
    (e e1 : Exec (GdbwireResult × Breakpoints)) → Alike e e1 → Alike (caught e) (caught e1)
caught-Alike (value a m0) (value b m1) h = h
caught-Alike (stop c m0) (stop d m1) h = (ap (λ x. (x, Breakpoints.null)) h.0, h.1, h.2)
caught-Alike fault fault h = tt
caught-Alike (value a m0) (stop d m1) h = absurd h
caught-Alike (value a m0) fault h = absurd h
caught-Alike (stop c m0) (value b m1) h = absurd h
caught-Alike (stop c m0) fault h = absurd h
caught-Alike fault (value b m1) h = absurd h
caught-Alike fault (stop d m1) h = absurd h

caught-Errs : (e : Exec (GdbwireResult × Breakpoints)) → Errs (λ _. Unit {0}) (caught e)
caught-Errs (value r mem) = tt
caught-Errs (stop code mem) = tt
caught-Errs fault = tt

attempt-IsSound : (m : M (GdbwireResult × Breakpoints)) → IsSound m → IsSound (attempt m)
attempt-IsSound m h = record {
  errs = λ mem. caught-Errs (m mem);
  steady = λ mem g. caught-Alike (m []) (m mem) (h.steady mem g);
}

mutual
  unfolding break_fields

  break_fields-IsSound : (r : MiResult) (f : BreakFields) → IsSound (break_fields r f)
  break_fields-IsSound null f = pure-Keeps _ tt
  break_fields-IsSound (cstring v text next) f =
      Keeps-bind _ (asserted v) _ (asserted-IsSound v) λ name.
        Keeps-bind _ (set_break_field name text f) _ (set_break_field-IsSound name text f)
          λ g. break_fields-IsSound next g
  break_fields-IsSound (tuple v sub next) f =
      Keeps-bind _ (asserted v) _ (asserted-IsSound v) λ name.
        Keeps-bind _ (assert (not (wants_cstring name || streq name (codes "locations")))) _
          (assert-IsSound _) λ _. break_fields-IsSound next f
  break_fields-IsSound (list v sub next) f =
      Keeps-bind _ (asserted v) _ (asserted-IsSound v) λ name.
        Keeps-bind _ (assert (not (wants_cstring name))) _ (assert-IsSound _) λ _.
          Keeps-bind _ (if streq name (codes "locations") then locations sub f else pure f) _
            (Keeps-if _ (streq name (codes "locations")) _ _ (locations-IsSound sub f)
              (pure-Keeps _ tt))
            λ g. break_fields-IsSound next g

  locations-IsSound : (r : MiResult) (f : BreakFields) → IsSound (locations r f)
  locations-IsSound null f = pure-Keeps _ tt
  locations-IsSound (tuple v sub next) f =
      Keeps-bind _
        (attempt
          (assert (not (is_null sub)) >> (break_fields sub no_break_fields >>= finish_breakpoint)))
        _
        (attempt-IsSound _ (
          Keeps-bind _ (assert (not (is_null sub))) _ (assert-IsSound _) λ _.
            Keeps-bind _ (break_fields sub no_break_fields) _
              (break_fields-IsSound sub no_break_fields) finish_breakpoint-IsSound))
        λ r. locations-IsSound next (located r f)
  locations-IsSound (cstring v text next) f = assert-fails
  locations-IsSound (list v sub next) f = assert-fails

break_info_for_breakpoint-IsSound : (r : MiResult) → IsSound (break_info_for_breakpoint r)
unfolding break_info_for_breakpoint
break_info_for_breakpoint-IsSound r =
    Keeps-bind _ (assert (not (is_null r))) _ (assert-IsSound _) λ _.
      Keeps-bind _ (break_fields r no_break_fields) _ (break_fields-IsSound r no_break_fields)
        finish_breakpoint-IsSound

attach_location-IsSound :
    (info : MiBreakpoint) (multi b : Breakpoints) → IsSound (attach_location info multi b)
unfolding attach_location
attach_location-IsSound info multi Breakpoints.null = undefined-Keeps
attach_location-IsSound info multi (bkpt cur m Breakpoints.null) = pure-Keeps _ tt
attach_location-IsSound info multi (bkpt first m (bkpt cur cm next)) =
    Keeps-bind _ (attach_location info multi (bkpt cur cm next)) _
      (attach_location-IsSound info multi (bkpt cur cm next)) λ rest. pure-Keeps _ tt

place-IsSound : (b breakpoints : Breakpoints) → IsSound (place b breakpoints)
unfolding place
place-IsSound Breakpoints.null breakpoints = undefined-Keeps
place-IsSound (bkpt info multi next) breakpoints =
    Keeps-if _ info.from_multi _ _ (attach_location-IsSound info multi breakpoints)
      (pure-Keeps _ tt)

place_or_fail-IsSound :
    (r : GdbwireResult × Breakpoints) (breakpoints : Breakpoints)
    → IsSound (place_or_fail r breakpoints)
place_or_fail-IsSound (gdbwire_ok, b) breakpoints = place-IsSound b breakpoints
place_or_fail-IsSound (gdbwire_assert, b) breakpoints = assert-fails
place_or_fail-IsSound (gdbwire_logic, b) breakpoints = logic-fails
place_or_fail-IsSound (gdbwire_nomem, b) breakpoints = nomem-fails

body_breakpoints-IsSound : (r : MiResult) (b : Breakpoints) → IsSound (body_breakpoints r b)
unfolding body_breakpoints
body_breakpoints-IsSound null b = pure-Keeps _ tt
body_breakpoints-IsSound (tuple v sub next) b =
    Keeps-bind _ (assert (is_bkpt v)) _ (assert-IsSound _) λ _.
      Keeps-bind _ (break_info_for_breakpoint sub) _ (break_info_for_breakpoint-IsSound sub) λ r.
        Keeps-bind _ (place_or_fail r b) _ (place_or_fail-IsSound r b)
          λ more. body_breakpoints-IsSound next more
body_breakpoints-IsSound (cstring v text next) b = assert-fails
body_breakpoints-IsSound (list v sub next) b = assert-fails

find_body-IsSound : (r : MiResult) → IsSound (find_body r)
unfolding find_body
find_body-IsSound null = assert-fails
find_body-IsSound (cstring v text next) = find_body-IsSound next
find_body-IsSound (tuple v sub next) = find_body-IsSound next
find_body-IsSound (list v sub next) = Keeps-bind _ (compared v) _ (compared-IsSound v) λ name.
    Keeps-elim _ (streq name (codes "body")) _ _
      (Keeps-bind _ (assert (is_null next)) _ (assert-IsSound _) λ _. pure-Keeps _ tt)
      (find_body-IsSound next)

table_of-IsSound : (r : MiResult) → IsSound (table_of r)
unfolding table_of
table_of-IsSound (tuple v sub next) = Keeps-bind _ (compared v) _ (compared-IsSound v) λ name.
    Keeps-bind _ (assert (streq name (codes "BreakpointTable"))) _ (assert-IsSound _) λ _.
      Keeps-bind _ (assert (not (is_null sub))) _ (assert-IsSound _)
        λ _. Keeps-bind _ (assert (is_null next)) _ (assert-IsSound _) λ _. pure-Keeps _ tt
table_of-IsSound null = assert-fails
table_of-IsSound (cstring v t next) = assert-fails
table_of-IsSound (list v sub next) = assert-fails

pub break_info-Keeps :
    (r : MiResultRecord) → Keeps (λ c. kind_of c ≡ kind_break_info) (break_info r)
unfolding break_info
break_info-Keeps r = Keeps-bind _ (assert (is_done r.result_class)) _ (assert-IsSound _) λ _.
    Keeps-bind _ (assert (not (is_null r.result))) _ (assert-IsSound _) λ _.
      Keeps-bind _ (table_of r.result) _ (table_of-IsSound r.result) λ table.
        Keeps-bind _ (find_body table) _ (find_body-IsSound table) λ body.
          Keeps-bind _ (body_breakpoints body Breakpoints.null) _
            (body_breakpoints-IsSound body Breakpoints.null)
            λ b. Keeps-bind _ checked_calloc _ checked_calloc-IsSound λ _. pure-Keeps _ refl
