-- ===== src/Tests/Logger.antt =====
-- The logger at concrete calls.
use gdbwire.Base.{ℕ, ◌+◌, ◌≡◌, refl, none, some, [], ◌∷◌, Bytes, codes, true, Ends, if◌then◌else◌}
use gdbwire.Logger.{
  logger_debug, logger_error, new_logger, is_set, LogCall, log_all, log_entry, level_str,
}
use gdbwire.Logger.Env.{entries, log_all-entries}

-- One digit.
abbrev decimal : ℕ → Bytes
decimal n = (b'0' + n) ∷ []

-- The variable is set at the first call, and no longer at the second.
abbrev first : LogCall
first = record {
  env = some (codes "1");
  file = codes "a.c";
  line = 7;
  level = logger_error;
  message = codes "failed";
}

abbrev second : LogCall
second = record first { env = none; level = logger_debug }

log_all-entries_example :
    Ends
      (λ r m. r.1 ≡ (if is_set first.env then entries decimal (first ∷ second ∷ []) else []))
      (log_all decimal (first ∷ second ∷ []) new_logger (true ∷ []))
log_all-entries_example = log_all-entries decimal first (second ∷ []) (true ∷ []) refl

entry : entries decimal (first ∷ []) ≡ codes "gdbwire_logger_log: [ERROR] a.c:7 failed\n"
unfolding log_entry level_str
entry = refl
