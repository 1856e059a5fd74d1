-- ===== src/Logger.antt =====
-- src/gdbwire_logger.c: messages on the error stream. What the calls of vsnprintf and getenv give, and
-- how fprintf writes a number, are parameters.
pub mod Env
use gdbwire.Base.{
  ℕ, Bool, true, false, not, Option, none, some, List, [], ◌∷◌, ◌++◌, Bytes, codes, M, pure,
  undefined, allocate, ◌>>=◌, if◌then◌else◌,
}

-- `enum gdbwire_logger_level`
pub data LoggerLevel : Type 0 where
  logger_debug logger_info logger_warn logger_error : LoggerLevel

-- `gdbwire_logger_level_str`
unfoldable pub level_str : LoggerLevel → Bytes
level_str logger_debug = codes "DEBUG"
level_str logger_info = codes "INFO"
level_str logger_warn = codes "WARN"
level_str logger_error = codes "ERROR"

-- The static variables of `gdbwire_logger_log`.
pub record Logger : Type 0 where
  pub checked_env : Bool
  pub debug_to_stderr : Bool

-- The variables before the first call.
abbrev pub new_logger : Logger
new_logger = record { checked_env = false; debug_to_stderr = false }

abbrev pub is_set : Option Bytes → Bool
is_set none = false
is_set (some text) = true

-- The environment is read once; `env` is what `getenv` returns now.
unfoldable pub check_env : Option Bytes → Logger → Logger
check_env env s =
    if s.checked_env then s else record { checked_env = true; debug_to_stderr = is_set env }

-- One call: what `getenv` returns, the arguments, and the text that the format gives.
pub record LogCall : Type 0 where
  pub env : Option Bytes
  pub file : Bytes
  pub line : ℕ
  pub level : LoggerLevel
  pub message : Bytes

-- The line that `fprintf` writes; `decimal` is its conversion of a number.
unfoldable pub log_entry : (ℕ → Bytes) → LogCall → Bytes
unfolding level_str
log_entry decimal c =
    codes "gdbwire_logger_log: ["
    ++ level_str c.level
    ++ codes "] "
    ++ c.file
    ++ codes ":"
    ++ decimal c.line
    ++ codes " "
    ++ c.message
    ++ codes "\n"

-- `gdbwire_logger_log`: the variables behind the call, and what was written. The text is formatted
-- into the buffer with no test of its allocation.
unfoldable pub logger_log : (ℕ → Bytes) → LogCall → Logger → M (Logger × Bytes)
unfolding check_env log_entry
logger_log decimal c s = do
  granted ← allocate
  let s1 = check_env c.env s
  elim granted [
    | true ↦ pure (s1, if s1.debug_to_stderr then log_entry decimal c else [])
    | false ↦ undefined
  ]

-- Calls, one behind the other.
unfoldable pub log_all : (ℕ → Bytes) → List LogCall → Logger → M (Logger × Bytes)
unfolding logger_log
log_all decimal [] s = pure (s, [])
log_all decimal (c ∷ cs) s = do
  r ← logger_log decimal c s
  rest ← log_all decimal cs r.0
  pure (rest.0, r.1 ++ rest.1)
