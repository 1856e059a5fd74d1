-- ===== src/Command/Common.antt =====
-- What the handlers of src/gdbwire_mi_command.c share: the tests at their heads, and the check
-- that every copy of a text was made.
use gdbwire.Base.{
  Bool, true, false, Option, none, some, Bytes, M, gdbwire_assert, gdbwire_nomem, pure, fail,
  undefined, allocate, ◌>>=◌,
}
use gdbwire.Pt.{MiResult, null, MiResultClass, done}

-- A variable that `strcmp` reads with no test for NULL.
abbrev pub compared : Option Bytes → M Bytes
compared none = undefined
compared (some name) = pure name

-- A variable that is asserted not to be NULL.
abbrev pub asserted : Option Bytes → M Bytes
asserted none = fail gdbwire_assert
asserted (some name) = pure name

abbrev pub is_done : MiResultClass → Bool
is_done done = true
is_done _ = false

abbrev pub is_null : MiResult → Bool
is_null null = true
is_null _ = false

-- The allocation of a struct, or GDBWIRE_NOMEM.
abbrev pub checked_calloc : M (Unit {0})
checked_calloc = do granted ← allocate; elim granted [ true ↦ pure tt | false ↦ fail gdbwire_nomem ]

-- `original && !copy`
abbrev pub refused : Option Bytes → Option Bytes → Bool
refused (some text) none = true
refused _ _ = false
