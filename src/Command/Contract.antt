-- ===== src/Command/Contract.antt =====
-- The contract of `gdbwire_get_mi_command` of src/gdbwire_mi_command.c: its result code, its command
-- and the allocator.
pub mod Files
pub mod Frame
pub mod Break
pub mod Get
use gdbwire.Base.{
  all_granted, subst, ap, sym, List, [], ◌∷◌, ◌≡◌, ◌≢◌, refl, Bool, true, false, Option, none, some,
  Bytes, M, Mem, Exec, value, stop, fault, bind_exec, GdbwireResult, gdbwire_ok, gdbwire_assert,
  gdbwire_logic, gdbwire_nomem, arith, streq, assert, allocate, pure, fail, undefined,
  if◌then◌else◌, Bool-cases, inl, inr, ◌>>=◌,
}
use gdbwire.Pt.{MiResult, null, cstring, tuple, list, MiResultRecord, strdup}
use gdbwire.Command.Types.{
  MiCommand, MiCommandKind, kind_break_info, kind_stack_info_frame, kind_file_list_exec_source_file,
  kind_file_list_exec_source_files, kind_of, Breakpoints, bkpt,
}
use gdbwire.Command.Common.{compared, asserted, checked_calloc}

-- An early return never carries GDBWIRE_OK, and `P` holds of a value.
abbrev pub Errs : {A : Type 0} → (A → Type 0) → Exec A → Type 0
Errs P (value a mem) = P a
Errs P (stop code mem) = code ≢ gdbwire_ok
Errs P fault = Unit {0}

-- A run that the allocator refused nothing, without and with a list of its answers, ends the same.
abbrev pub Alike : {A : Type 0} → Exec A → Exec A → Type 0
Alike (value a m0) (value b m1) = (a ≡ b) × (m0 ≡ []) × (all_granted m1 ≡ true)
Alike (stop c m0) (stop d m1) = (c ≡ d) × (m0 ≡ []) × (all_granted m1 ≡ true)
Alike fault fault = Unit {0}
Alike _ _ = ⊥

pub record Keeps {A : Type 0} (P : A → Type 0) (m : M A) : Type 0 where
  pub errs : (mem : Mem) → Errs P (m mem)
  pub steady : (mem : Mem) → all_granted mem ≡ true → Alike (m []) (m mem)

-- No early return of `m` carries GDBWIRE_OK.
abbrev pub IsSound : {A : Type 0} → M A → Type 0
IsSound m = Keeps (λ _. Unit {0}) m

Errs-bind :
    {A B : Type 0} (P : A → Type 0) (Q : B → Type 0) (e : Exec A) (f : A → M B)
    → Errs P e
    → ((a : A) → Keeps Q (f a))
    → Errs Q (bind_exec e f)
Errs-bind P Q (value a mem) f h k = (k a).errs mem
Errs-bind P Q (stop code mem) f h k = h
Errs-bind P Q fault f h k = tt

Alike-bind :
    {A B : Type 0} (Q : B → Type 0) (e e1 : Exec A) (f : A → M B)
    → Alike e e1
    → ((a : A) → Keeps Q (f a))
    → Alike (bind_exec e f) (bind_exec e1 f)
Alike-bind Q (value a m0) (value b m1) f (same, none_left, g) k =
    subst (λ x. Alike (f a m0) (f x m1)) same
      (subst (λ m. Alike (f a m) (f a m1)) (sym none_left) ((k a).steady m1 g))
Alike-bind Q (stop c m0) (stop d m1) f h k = h
Alike-bind Q fault fault f h k = tt
Alike-bind Q (value a m0) (stop d m1) f h k = absurd h
Alike-bind Q (value a m0) fault f h k = absurd h
Alike-bind Q (stop c m0) (value b m1) f h k = absurd h
Alike-bind Q (stop c m0) fault f h k = absurd h
Alike-bind Q fault (value b m1) f h k = absurd h
Alike-bind Q fault (stop d m1) f h k = absurd h

pub Keeps-bind :
    {A B : Type 0} (Q : B → Type 0) (m : M A) (f : A → M B)
    → IsSound m
    → ((a : A) → Keeps Q (f a))
    → Keeps Q (m >>= f)
Keeps-bind Q m f h k = record {
  errs = λ mem. Errs-bind _ Q (m mem) f (h.errs mem) k;
  steady = λ mem g. Alike-bind Q (m []) (m mem) f (h.steady mem g) k;
}

pub Keeps-if :
    {A : Type 0} (Q : A → Type 0) (b : Bool) (x y : M A)
    → Keeps Q x
    → Keeps Q y
    → Keeps Q (if b then x else y)
Keeps-if Q true x y h k = h
Keeps-if Q false x y h k = k

pub Keeps-elim :
    {A : Type 0} (Q : A → Type 0) (b : Bool) (x y : M A)
    → Keeps Q x
    → Keeps Q y
    → Keeps Q (elim b as (λ _. M A) [ true ↦ x | false ↦ y ])
Keeps-elim Q true x y h k = h
Keeps-elim Q false x y h k = k

pub pure-Keeps : {A : Type 0} {Q : A → Type 0} (a : A) → Q a → Keeps Q (pure a)
pure-Keeps a h = record { errs = λ mem. h; steady = λ mem g. (refl, refl, g) }

fail-Keeps :
    {A : Type 0} {Q : A → Type 0} (code : GdbwireResult) → code ≢ gdbwire_ok → Keeps Q (fail code)
fail-Keeps code h = record { errs = λ mem. h; steady = λ mem g. (refl, refl, g) }

pub assert-fails : {A : Type 0} {Q : A → Type 0} → Keeps Q (fail gdbwire_assert)
assert-fails = fail-Keeps gdbwire_assert (λ e. ground arith)

pub nomem-fails : {A : Type 0} {Q : A → Type 0} → Keeps Q (fail gdbwire_nomem)
nomem-fails = fail-Keeps gdbwire_nomem (λ e. ground arith)

pub logic-fails : {A : Type 0} {Q : A → Type 0} → Keeps Q (fail gdbwire_logic)
logic-fails = fail-Keeps gdbwire_logic (λ e. ground arith)

pub undefined-Keeps : {A : Type 0} {Q : A → Type 0} → Keeps Q undefined
undefined-Keeps = record { errs = λ mem. tt; steady = λ mem g. tt }

pub assert-IsSound : (b : Bool) → IsSound (assert b)
assert-IsSound true = pure-Keeps tt tt
assert-IsSound false = assert-fails

pub compared-IsSound : (v : Option Bytes) → IsSound (compared v)
compared-IsSound none = undefined-Keeps
compared-IsSound (some name) = pure-Keeps name tt

pub asserted-IsSound : (v : Option Bytes) → IsSound (asserted v)
asserted-IsSound none = assert-fails
asserted-IsSound (some name) = pure-Keeps name tt

pub allocate-IsSound : IsSound allocate
allocate-IsSound = record { errs = errs; steady = steady }
  where
    errs : (mem : Mem) → Errs (λ _. Unit {0}) (allocate mem)
    errs [] = tt
    errs (b ∷ mem) = tt

    steady : (mem : Mem) → all_granted mem ≡ true → Alike (allocate []) (allocate mem)
    steady [] g = (refl, refl, refl)
    steady (true ∷ mem) g = (refl, refl, g)
    steady (false ∷ mem) g = absurd (ground arith)

pub checked_calloc-IsSound : IsSound checked_calloc
checked_calloc-IsSound =
    Keeps-bind _ allocate _ allocate-IsSound
      λ granted. Keeps-elim _ granted _ _ (pure-Keeps tt tt) nomem-fails

pub strdup-IsSound : (o : Option Bytes) → IsSound (strdup o)
unfolding strdup
strdup-IsSound none = pure-Keeps none tt
strdup-IsSound (some str) = Keeps-bind _ allocate _ allocate-IsSound λ granted. pure-Keeps _ tt
