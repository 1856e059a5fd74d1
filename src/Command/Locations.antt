-- ===== src/Command/Locations.antt =====
-- The two ways in which GDB lists the locations of a breakpoint: as breakpoints of their own behind
-- it (mi2), or in a field `locations` (mi3).
use gdbwire.Base.{
  ◌≡◌, refl, sym, ◌∙◌, true, false, Option, some, List, [], Bytes, codes, gdbwire_ok, value,
}
use gdbwire.Pt.{MiResult, null, cstring, tuple, list, append_after}
use gdbwire.Command.Types.{MiBreakpoint, Breakpoints, bkpt}
use gdbwire.Command.Common.{is_null}
use gdbwire.Command.Break.{
  BreakFields, no_break_fields, wants_cstring, append_breakpoints, set_parent, break_fields,
  break_info_for_breakpoint,
}
use gdbwire.Command.Granted.{info_of, finish_breakpoint-granted, break_fields-append}
use gdbwire.Command.BreakInfo.{is_bkpt, body_breakpoints}
use gdbwire.Command.Attach.{
  chain, children, set_parent-chain, tuples, AreLocations, body_breakpoints-plain,
  body_breakpoints-tuples, locations-tuples,
}

-- `p` lists the fields of a breakpoint with the number `n` that is not itself a location, and has
-- no field `locations`; `f` is what the loop over them leaves.
pub record IsParent (p : MiResult) (n : Bytes) (f : BreakFields) : Type 0 where
  pub nonempty : is_null p ≡ false
  pub parsed : break_fields p no_break_fields [] ≡ value f []
  pub numbered : f.number ≡ some n
  pub sound : f.result ≡ gdbwire_ok
  pub alone : f.multi_breakpoints ≡ Breakpoints.null
  pub plain : f.from_multi ≡ false

-- The field `locations=[{...},{...}]`.
abbrev pub locations_field : List MiResult → MiResult
locations_field subs = list (some (codes "locations")) (tuples subs null) null

-- The field is read by the loop over the locations.
pub read-locations_field :
    (f : BreakFields) {subs : List MiResult} {is : List MiBreakpoint}
    → f.result ≡ gdbwire_ok
    → AreLocations subs is
    → break_fields (locations_field subs) f []
      ≡ value
          (record f { multi_breakpoints = append_breakpoints f.multi_breakpoints (chain is) })
          []
unfolding break_fields wants_cstring
read-locations_field f ok l = rw (locations-tuples f ok l)

module _ (p : MiResult) (n : Bytes) (f : BreakFields) (h : IsParent p n f) where
  made-plain :
      break_info_for_breakpoint p []
      ≡ value (gdbwire_ok, bkpt (info_of n f) Breakpoints.null Breakpoints.null) []
  unfolding break_info_for_breakpoint set_parent
  made-plain = rw (h.nonempty, h.parsed, finish_breakpoint-granted n f h.numbered, h.sound, h.alone)

  is_null-append : (q : MiResult) → is_null (append_after p q) ≡ false
  is_null-append q = go p h.nonempty
    where
      go : (r : MiResult) → is_null r ≡ false → is_null (append_after r q) ≡ false
      go null e = absurd (cc)
      go (cstring v t next) e = unfold append_after in refl
      go (tuple v sub next) e = unfold append_after in refl
      go (list v sub next) e = unfold append_after in refl

  with_children : List MiBreakpoint → BreakFields
  with_children is = record f { multi_breakpoints = chain is }

  made-with_locations :
      {subs : List MiResult} {is : List MiBreakpoint}
      → AreLocations subs is
      → break_info_for_breakpoint (append_after p (locations_field subs)) []
        ≡ value (gdbwire_ok, bkpt (info_of n f) (chain (children n is)) Breakpoints.null) []
  unfolding break_info_for_breakpoint with_children
  made-with_locations {subs} {is} l = rw (
    is_null-append (locations_field subs),
    break_fields-append p (locations_field subs) no_break_fields,
    h.parsed,
    read-locations_field f h.sound l,
    gathered,
    finish_breakpoint-granted n (with_children is) h.numbered,
    h.sound,
    set_parent-chain n is,
  )
    where
      gathered :
          record f { multi_breakpoints = append_breakpoints f.multi_breakpoints (chain is) }
          ≡ with_children is
      gathered = unfold append_breakpoints with_children in rw h.alone

  -- Both ways of listing the locations of a breakpoint give the same list of breakpoints: the
  -- breakpoint with its locations below it, in order, each with a link back to it. It goes behind
  -- the breakpoints that stand in front (`acc`), and `rest` is read next.
  pub mi2-eq-mi3 :
      {subs : List MiResult} {is : List MiBreakpoint} (v : Option Bytes) (rest : MiResult)
      (acc : Breakpoints)
      → is_bkpt v ≡ true
      → AreLocations subs is
      → body_breakpoints (tuple v p (tuples subs rest)) acc []
        ≡ body_breakpoints (tuple v (append_after p (locations_field subs)) rest) acc []
  unfolding append_breakpoints body_breakpoints
  mi2-eq-mi3 {subs} {is} v rest acc named l =
      body_breakpoints-plain v p (info_of n f) Breakpoints.null (tuples subs rest) acc named
        made-plain h.plain
      ∙ body_breakpoints-tuples rest acc (info_of n f) Breakpoints.null l
      ∙ sym (
          body_breakpoints-plain v (append_after p (locations_field subs)) (info_of n f)
            (chain (children n is)) rest acc named (made-with_locations l) h.plain)
