-- ===== src/Command/Contract/Get.antt =====
-- The documented contract of `gdbwire_get_mi_command`.
use gdbwire.Base.{
  ap, [], true, all_granted, ◌≡◌, ◌≢◌, refl, Option, none, some, M, Mem, GdbwireResult, gdbwire_ok,
  Exec, value, stop, fault,
}
use gdbwire.Pt.{MiResultRecord}
use gdbwire.Command.Types.{
  MiCommand, MiCommandKind, kind_of, kind_break_info, kind_stack_info_frame,
  kind_file_list_exec_source_file, kind_file_list_exec_source_files,
}
use gdbwire.Command.Get.{handler, get_mi_command, answered}
use gdbwire.Command.Contract.{Errs, Alike, Keeps}
use gdbwire.Command.Contract.Files.{
  file_list_exec_source_file-Keeps, file_list_exec_source_files-Keeps,
}
use gdbwire.Command.Contract.Frame.{stack_info_frame-Keeps}
use gdbwire.Command.Contract.Break.{break_info-Keeps}

handler-Keeps :
    (kind : MiCommandKind) (r : MiResultRecord) → Keeps (λ c. kind_of c ≡ kind) (handler kind r)
unfolding handler
handler-Keeps kind_break_info r = break_info-Keeps r
handler-Keeps kind_stack_info_frame r = stack_info_frame-Keeps r
handler-Keeps kind_file_list_exec_source_file r = file_list_exec_source_file-Keeps r
handler-Keeps kind_file_list_exec_source_files r = file_list_exec_source_files-Keeps r

-- GDBWIRE_OK comes with a command of the kind that was asked for, any other code with NULL.
abbrev pub Answers : MiCommandKind → GdbwireResult × Option MiCommand → Type 0
Answers kind (code, none) = code ≢ gdbwire_ok
Answers kind (code, some c) = (code ≡ gdbwire_ok) × (kind_of c ≡ kind)

-- The call returns, and `P` holds of its result, unless its behaviour is undefined.
abbrev pub Returns : {A : Type 0} → (A → Type 0) → Exec A → Type 0
Returns P (value a mem) = P a
Returns P (stop code mem) = ⊥
Returns P fault = Unit {0}

answered_lem :
    (kind : MiCommandKind) (m : M MiCommand) (mem : Mem)
    → Errs (λ c. kind_of c ≡ kind) (m mem)
    → Returns (Answers kind) (answered m mem)
answered_lem kind m mem = go (m mem)
  where
    go :
        (e : Exec MiCommand)
        → Errs (λ c. kind_of c ≡ kind) e
        → Returns (Answers kind) (elim e [
          | value c mem1 ↦ value (gdbwire_ok, some c) mem1
          | stop code mem1 ↦ value (code, none) mem1
          | fault ↦ fault
        ])
    go (value c mem1) h = (refl, h)
    go (stop code mem1) h = h
    go fault h = tt

-- Unless its behaviour is undefined, `gdbwire_get_mi_command` returns, for every kind, every
-- result record and every outcome of the allocations: GDBWIRE_OK with a command of the kind that
-- was asked for, or another code with no command.
pub get_mi_command_lem :
    (kind : MiCommandKind) (r : MiResultRecord) (mem : Mem)
    → Returns (Answers kind) (get_mi_command kind r mem)
unfolding get_mi_command
get_mi_command_lem kind r mem =
    answered_lem kind (handler kind r) mem ((handler-Keeps kind r).errs mem)

abbrev pub answer_of : Exec MiCommand → Exec (GdbwireResult × Option MiCommand)
answer_of e = elim e [
  | value c mem1 ↦ value (gdbwire_ok, some c) mem1
  | stop code mem1 ↦ value (code, none) mem1
  | fault ↦ fault
]

answered_granted :
    (m : M MiCommand) (mem : Mem) → Alike (m []) (m mem) → Alike (answered m []) (answered m mem)
answered_granted m mem = go (m []) (m mem)
  where
    go : (e e1 : Exec MiCommand) → Alike e e1 → Alike (answer_of e) (answer_of e1)
    go (value a m0) (value b m1) h = (ap (λ c. (gdbwire_ok, some c)) h.0, h.1, h.2)
    go (stop c m0) (stop d m1) h = (ap (λ c. (c, none)) h.0, h.1, h.2)
    go fault fault h = tt
    go (value a m0) (stop d m1) h = absurd h
    go (value a m0) fault h = absurd h
    go (stop c m0) (value b m1) h = absurd h
    go (stop c m0) fault h = absurd h
    go fault (value b m1) h = absurd h
    go fault (stop d m1) h = absurd h

-- The answer does not depend on how much the allocator grants.
pub get_mi_command-granted :
    (kind : MiCommandKind) (r : MiResultRecord) (mem : Mem)
    → all_granted mem ≡ true
    → Alike (get_mi_command kind r []) (get_mi_command kind r mem)
unfolding get_mi_command
get_mi_command-granted kind r mem g =
    answered_granted (handler kind r) mem ((handler-Keeps kind r).steady mem g)
