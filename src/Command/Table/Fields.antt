-- ===== src/Command/Table/Fields.antt =====
-- The loop of `break_info_for_breakpoint` of src/gdbwire_mi_command.c over the fields of a breakpoint.
use gdbwire.Base.{
  ℕ, ◌≡◌, refl, ap, sym, ◌∙◌, Bool, true, false, Option, none, some, [], Bytes, codes, value,
  bind_exec, strtoul_whole,
}
use gdbwire.Pt.{MiResult}
use gdbwire.Command.Types.{
  MiDisposition, disp_delete, disp_delete_next_stop, disp_disable, disp_keep, disp_unknown,
}
use gdbwire.Command.Break.{
  BreakFields, disposition, begins_yes, no_break_fields, set_break_field, break_fields, ulong,
}
use gdbwire.Command.RoundTrip.{field}
use gdbwire.Command.Table.{
  BreakText, disposition_text, enabled_text, describe_break, number_of, IsNumber, partly,
  fields_read,
}

-- One field: `g` is what the loop has read, as a function of the field.
field_read :
    (name : Bytes) (text : Option Bytes) (rest : MiResult) (g : Option Bytes → BreakFields)
    → ((t : Bytes) → set_break_field name t (g none) [] ≡ value (g (some t)) [])
    → break_fields (field name text rest) (g none) [] ≡ break_fields rest (g text) []
unfolding break_fields
field_read name none rest g h = refl
field_read name (some t) rest g h = rw (h t) refl

-- A field with a number.
number_read :
    (name : Bytes) (text : Option Bytes) (rest : MiResult) (g : ℕ → BreakFields)
    → IsNumber text
    → ((t : Bytes) (n : ℕ)
        → strtoul_whole t ≡ some n
        → set_break_field name t (g 0) [] ≡ value (g n) [])
    → break_fields (field name text rest) (g 0) [] ≡ break_fields rest (g (number_of text)) []
unfolding break_fields
number_read name none rest g r h = refl
number_read name (some t) rest g (n, e) h =
    let same : number_of (some t) ≡ n = ap (λ o. elim o as (λ _. ℕ) [ none ↦ 0 | some m ↦ m ]) e in
    rw (h t n e) (ap (λ m. break_fields rest (g m) []) (sym same))

ulong-value : (t : Bytes) (n : ℕ) → strtoul_whole t ≡ some n → ulong t [] ≡ value n []
unfolding ulong
ulong-value t n e = rw (e, ulong) refl

disposition_read :
    (d : MiDisposition) (rest : MiResult) (g : MiDisposition → BreakFields)
    → ((t : Bytes)
        → set_break_field (codes "disp") t (g disp_unknown) []
          ≡ bind_exec (disposition t []) (λ e mem. value (g e) mem))
    → break_fields (field (codes "disp") (disposition_text d) rest) (g disp_unknown) []
      ≡ break_fields rest (g d) []
unfolding break_fields disposition
disposition_read disp_unknown rest g h = refl
disposition_read disp_delete rest g h = rw (h (codes "del")) refl
disposition_read disp_delete_next_stop rest g h = rw (h (codes "dstp")) refl
disposition_read disp_disable rest g h = rw (h (codes "dis")) refl
disposition_read disp_keep rest g h = rw (h (codes "keep")) refl

begins_yes-enabled_text : (b : Bool) → begins_yes (enabled_text b) ≡ b
begins_yes-enabled_text true = refl
begins_yes-enabled_text false = refl

pub break_fields-describe_break :
    (d : BreakText) (rest : MiResult)
    → IsNumber d.line
    → IsNumber d.times
    → break_fields (describe_break d rest) no_break_fields [] ≡ break_fields rest (fields_read d) []
unfolding set_break_field break_fields
break_fields-describe_break d rest l t =
    field_read (codes "type") d.type _
      (λ x. partly d.number x none disp_unknown false none none none none 0 0 none) (λ t. refl)
    ∙ field_read (codes "catch-type") d.catch_type _
        (λ x. partly d.number d.type x disp_unknown false none none none none 0 0 none) (λ t. refl)
    ∙ disposition_read d.disposition _
        (λ x. partly d.number d.type d.catch_type x false none none none none 0 0 none) (λ t. refl)
    ∙ ap
        (λ b.
          break_fields
            (field (codes "addr") d.address (
              field (codes "func") d.func (
                field (codes "file") d.file (
                  field (codes "fullname") d.fullname (
                    field (codes "line") d.line (
                      field (codes "times") d.times
                        (field (codes "original-location") d.original_location rest)))))))
            (partly d.number d.type d.catch_type d.disposition b none none none none 0 0 none) [])
        (begins_yes-enabled_text d.enabled)
    ∙ field_read (codes "addr") d.address _
        (λ x. partly d.number d.type d.catch_type d.disposition d.enabled x none none none 0 0 none)
        (λ t. refl)
    ∙ field_read (codes "func") d.func _
        (λ x.
          partly d.number d.type d.catch_type d.disposition d.enabled d.address x none none 0 0
            none)
        (λ t. refl)
    ∙ field_read (codes "file") d.file _
        (λ x.
          partly d.number d.type d.catch_type d.disposition d.enabled d.address d.func x none 0 0
            none)
        (λ t. refl)
    ∙ field_read (codes "fullname") d.fullname _
        (λ x.
          partly d.number d.type d.catch_type d.disposition d.enabled d.address d.func d.file x 0 0
            none)
        (λ t. refl)
    ∙ number_read (codes "line") d.line _
        (λ n.
          partly d.number d.type d.catch_type d.disposition d.enabled d.address d.func d.file
            d.fullname n 0 none)
        l (λ t n e. rw (ulong-value t n e) refl)
    ∙ number_read (codes "times") d.times _
        (λ n.
          partly d.number d.type d.catch_type d.disposition d.enabled d.address d.func d.file
            d.fullname (number_of d.line) n none)
        t (λ t n e. rw (ulong-value t n e) refl)
    ∙ field_read (codes "original-location") d.original_location _
        (λ x.
          partly d.number d.type d.catch_type d.disposition d.enabled d.address d.func d.file
            d.fullname (number_of d.line) (number_of d.times) x)
        (λ t. refl)
