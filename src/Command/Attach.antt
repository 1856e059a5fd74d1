-- ===== src/Command/Attach.antt =====
-- How the locations of a breakpoint go into the list that src/gdbwire_mi_command.c builds.
use gdbwire.Base.{
  ◌≡◌, refl, sym, ap, ◌∙◌, true, false, not, Option, none, some, List, [], ◌∷◌, Bytes, M, Mem,
  GdbwireResult, gdbwire_ok, value, bind_exec, assert, ◌>>=◌, ◌>>◌, if◌then◌else◌, pure,
}
use gdbwire.Pt.{MiResult, null, tuple}
use gdbwire.Command.Types.{MiBreakpoint, Breakpoints, bkpt}
use gdbwire.Command.Common.{is_null}
use gdbwire.Command.Break.{
  BreakFields, no_break_fields, append_breakpoints, set_parent, finish_breakpoint, attempt, located,
  break_fields, locations, break_info_for_breakpoint,
}
use gdbwire.Command.BreakInfo.{is_bkpt, attach_location, place, body_breakpoints}

pub append_breakpoints-null : (a : Breakpoints) → append_breakpoints a Breakpoints.null ≡ a
unfolding append_breakpoints
append_breakpoints-null Breakpoints.null = refl
append_breakpoints-null (bkpt i m next) = ap (bkpt i m) (append_breakpoints-null next)

-- A list of breakpoints that have no locations of their own.
abbrev pub chain : List MiBreakpoint → Breakpoints
chain [] = Breakpoints.null
chain (i ∷ is) = bkpt i Breakpoints.null (chain is)

append-chain :
    (m : Breakpoints) (i : MiBreakpoint) (is : List MiBreakpoint)
    → append_breakpoints
        (append_breakpoints m (bkpt i Breakpoints.null Breakpoints.null))
        (chain is)
      ≡ append_breakpoints m (chain (i ∷ is))
unfolding append_breakpoints
append-chain Breakpoints.null i is = refl
append-chain (bkpt j k next) i is = ap (bkpt j k) (append-chain next i is)

abbrev pub with_parent : Bytes → MiBreakpoint → MiBreakpoint
with_parent n i = record i { multi_breakpoint = some n }

abbrev pub children : Bytes → List MiBreakpoint → List MiBreakpoint
children n [] = []
children n (i ∷ is) = with_parent n i ∷ children n is

pub set_parent-chain :
    (n : Bytes) (is : List MiBreakpoint) → set_parent n (chain is) ≡ chain (children n is)
unfolding set_parent
set_parent-chain n [] = refl
set_parent-chain n (i ∷ is) = ap (bkpt (with_parent n i) Breakpoints.null) (set_parent-chain n is)

-- The tuples `{...},{...}` with `rest` behind them.
abbrev pub tuples : List MiResult → MiResult → MiResult
tuples [] rest = rest
tuples (sub ∷ subs) rest = tuple none sub (tuples subs rest)

-- Each tuple is the location that stands at its place: a breakpoint of a multiple location
-- breakpoint, with no locations of its own.
pub data AreLocations : List MiResult → List MiBreakpoint → Type 0 where
  nil : AreLocations [] []
  cons :
      {sub : MiResult} {subs : List MiResult} {i : MiBreakpoint} {is : List MiBreakpoint}
      → break_info_for_breakpoint sub []
        ≡ value (gdbwire_ok, bkpt i Breakpoints.null Breakpoints.null) []
      → i.from_multi ≡ true
      → AreLocations subs is
      → AreLocations (sub ∷ subs) (i ∷ is)

-- Behind the last breakpoint `cur` of the list a location goes to the locations of `cur`.
attach_location-last :
    (i : MiBreakpoint) (multi acc : Breakpoints) (cur : MiBreakpoint) (m : Breakpoints) (mem : Mem)
    → attach_location i multi (append_breakpoints acc (bkpt cur m Breakpoints.null)) mem
      ≡ value
          (append_breakpoints acc (
            bkpt cur
              (append_breakpoints m (bkpt (with_parent cur.number i) multi Breakpoints.null))
              Breakpoints.null))
          mem
unfolding attach_location append_breakpoints
attach_location-last i multi Breakpoints.null cur m mem = refl
attach_location-last i multi (bkpt a am Breakpoints.null) cur m mem = refl
attach_location-last i multi (bkpt a am (bkpt b bm next)) cur m mem =
    rw (attach_location-last i multi (bkpt b bm next) cur m mem)

place_location :
    (i : MiBreakpoint) (multi next b : Breakpoints)
    → i.from_multi ≡ true
    → place (bkpt i multi next) b ≡ attach_location i multi b
unfolding place
place_location i multi next b h =
    ap
      (λ t.
        if t then attach_location i multi b else pure (append_breakpoints b (bkpt i multi next)))
      h

place_plain :
    (i : MiBreakpoint) (multi next b : Breakpoints)
    → i.from_multi ≡ false
    → place (bkpt i multi next) b ≡ pure (append_breakpoints b (bkpt i multi next))
unfolding place
place_plain i multi next b h =
    ap
      (λ t.
        if t then attach_location i multi b else pure (append_breakpoints b (bkpt i multi next)))
      h

-- One round of the loop over the body, at a breakpoint that is not a location.
pub body_breakpoints-plain :
    (v : Option Bytes) (sub : MiResult) (i : MiBreakpoint) (multi : Breakpoints) (next : MiResult)
    (acc : Breakpoints)
    → is_bkpt v ≡ true
    → break_info_for_breakpoint sub [] ≡ value (gdbwire_ok, bkpt i multi Breakpoints.null) []
    → i.from_multi ≡ false
    → body_breakpoints (tuple v sub next) acc []
      ≡ body_breakpoints next (append_breakpoints acc (bkpt i multi Breakpoints.null)) []
unfolding body_breakpoints
body_breakpoints-plain v sub i multi next acc named e h =
    rw (named, e, place_plain i multi Breakpoints.null acc h)

-- mi2: the loop over the body puts the locations below the breakpoint in front of them.
pub body_breakpoints-tuples :
    {subs : List MiResult} {is : List MiBreakpoint} (rest : MiResult) (acc : Breakpoints)
    (cur : MiBreakpoint) (m : Breakpoints)
    → AreLocations subs is
    → body_breakpoints (tuples subs rest) (append_breakpoints acc (bkpt cur m Breakpoints.null)) []
      ≡ body_breakpoints rest
          (append_breakpoints acc
            (bkpt cur (append_breakpoints m (chain (children cur.number is))) Breakpoints.null))
          []
body_breakpoints-tuples rest acc cur m nil = rw append_breakpoints-null
body_breakpoints-tuples rest acc cur m (cons {sub} {subs} {i} {is} e dotted l) =
    first
    ∙ body_breakpoints-tuples rest acc cur
        (append_breakpoints m (bkpt (with_parent cur.number i) Breakpoints.null Breakpoints.null)) l
    ∙ ap (λ t. body_breakpoints rest (append_breakpoints acc (bkpt cur t Breakpoints.null)) [])
        (append-chain m (with_parent cur.number i) (children cur.number is))
  where
    first :
        body_breakpoints
          (tuple none sub (tuples subs rest))
          (append_breakpoints acc (bkpt cur m Breakpoints.null))
          []
        ≡ body_breakpoints
            (tuples subs rest)
            (append_breakpoints acc (
              bkpt cur
                (append_breakpoints m
                  (bkpt (with_parent cur.number i) Breakpoints.null Breakpoints.null))
                Breakpoints.null))
            []
    first =
        unfold body_breakpoints in
        rw (
          e,
          place_location i Breakpoints.null Breakpoints.null
              (append_breakpoints acc (bkpt cur m Breakpoints.null)) dotted,
          attach_location-last i Breakpoints.null acc cur m [],
        )

attempt-value :
    {r : GdbwireResult × Breakpoints} (m : M (GdbwireResult × Breakpoints))
    → m [] ≡ value r []
    → attempt m [] ≡ value r []
attempt-value m e = rw (attempt, e)

attempt-location :
    {r : GdbwireResult × Breakpoints} (sub : MiResult)
    → break_info_for_breakpoint sub [] ≡ value r []
    → attempt
        (assert (not (is_null sub)) >> (break_fields sub no_break_fields >>= finish_breakpoint))
        []
      ≡ value r []
unfolding break_info_for_breakpoint
attempt-location sub e =
    attempt-value
      (assert (not (is_null sub)) >> (break_fields sub no_break_fields >>= finish_breakpoint)) e

-- mi3: the loop over `locations` collects them.
pub locations-tuples :
    {subs : List MiResult} {is : List MiBreakpoint} (f : BreakFields)
    → f.result ≡ gdbwire_ok
    → AreLocations subs is
    → locations (tuples subs null) f []
      ≡ value
          (record f { multi_breakpoints = append_breakpoints f.multi_breakpoints (chain is) })
          []
unfolding break_fields
locations-tuples f ok nil = rw append_breakpoints-null
locations-tuples f ok (cons {sub} {subs} {i} {is} e dotted l) =
    ap (λ t. bind_exec t (λ r. locations (tuples subs null) (located r f))) (attempt-location sub e)
    ∙ locations-tuples (located (gdbwire_ok, bkpt i Breakpoints.null Breakpoints.null) f) refl l
    ∙ λ j.
        value
          (record f {
            result = sym ok j;
            multi_breakpoints = append-chain f.multi_breakpoints i is j;
          })
          []
