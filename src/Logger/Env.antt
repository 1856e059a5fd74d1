-- ===== src/Logger/Env.antt =====
-- What a program that logs with src/gdbwire_logger.c writes, and the variable of the environment.
use gdbwire.Base.{
  subst, ◌≡◌, refl, ap, sym, ◌∙◌, Bool, true, false, List, [], ◌∷◌, ◌++◌, Bytes, Mem, Ends,
  Ends-bind, Ends-map, all_granted, if◌then◌else◌, ℕ,
}
use gdbwire.Logger.{Logger, new_logger, is_set, check_env, LogCall, log_entry, logger_log, log_all}
use gdbwire.Wire.Create.{allocate-bind}

abbrev pub entries : (ℕ → Bytes) → List LogCall → Bytes
entries decimal [] = []
entries decimal (c ∷ cs) = log_entry decimal c ++ entries decimal cs

-- What the calls write, where the flag says whether anything is written.
abbrev written : (ℕ → Bytes) → List LogCall → Bool → Bytes
written decimal cs true = entries decimal cs
written decimal cs false = []

logger_log-granted :
    (decimal : ℕ → Bytes) (c : LogCall) (s : Logger) (mem : Mem)
    → all_granted mem ≡ true
    → Ends
        (λ r m.
          (r ≡ (
            check_env c.env s,
            if (check_env c.env s).debug_to_stderr then log_entry decimal c else [],
          ))
          × (all_granted m ≡ true))
        (logger_log decimal c s mem)
unfolding logger_log
logger_log-granted decimal c s mem g = allocate-bind _ mem _ g λ m g1. (refl, g1)

abbrev Writes : (ℕ → Bytes) → List LogCall → Bool → Logger → Type 0
Writes decimal cs flag s =
    (mem : Mem)
    → all_granted mem ≡ true
    → Ends (λ r m. (r.1 ≡ written decimal cs flag) × (all_granted m ≡ true))
        (log_all decimal cs s mem)

-- The variables of a logger that has read its environment.
abbrev checked : Bool → Logger
checked flag = record { checked_env = true; debug_to_stderr = flag }

-- A call that leaves the logger with the flag, and then the others.
Writes-call :
    (decimal : ℕ → Bytes) (c : LogCall) (cs : List LogCall) (s : Logger) (flag : Bool)
    → check_env c.env s ≡ checked flag
    → Writes decimal cs flag (checked flag)
    → Writes decimal (c ∷ cs) flag s
unfolding log_all
Writes-call decimal c cs s flag e ih mem g =
    Ends-bind _ _ (logger_log decimal c s mem) _ (logger_log-granted decimal c s mem g)
      λ r m (er, g1).
        let state : r.0 ≡ checked flag = ap (λ x. x.0) er ∙ e in
        let out : r.1 ≡ (if flag then log_entry decimal c else []) =
          ap (λ x. x.1) er
          ∙ ap (λ (x : Logger). if x.debug_to_stderr then log_entry decimal c else []) e in
        Ends-bind _ _ (log_all decimal cs r.0 m) _
          (subst
            (λ x.
              Ends (λ q m1. (q.1 ≡ written decimal cs flag) × (all_granted m1 ≡ true))
                (log_all decimal cs x m))
            (sym state) (ih m g1))
          λ q m1 (eq, g2). (
            ap (λ x. x ++ q.1) out
                ∙ ap (λ x. (if flag then log_entry decimal c else []) ++ x) eq
                ∙ joined flag,
            g2,
          )
  where
    joined :
        (b : Bool)
        → (if b then log_entry decimal c else []) ++ written decimal cs b
          ≡ written decimal (c ∷ cs) b
    joined true = refl
    joined false = refl

-- Behind the first call the environment is not read.
Writes-checked :
    (decimal : ℕ → Bytes) (cs : List LogCall) (flag : Bool) → Writes decimal cs flag (checked flag)
unfolding log_all check_env
Writes-checked decimal [] true mem g = (refl, g)
Writes-checked decimal [] false mem g = (refl, g)
Writes-checked decimal (c ∷ cs) flag mem g =
    Writes-call decimal c cs (checked flag) flag refl (Writes-checked decimal cs flag) mem g

-- What is written by a sequence of calls, each with the environment that it finds, from the start of
-- the program, where the allocator refuses nothing: a line for each call, in order, if the variable
-- was set at the first call, and nothing otherwise. What it is later makes no difference.
pub log_all-entries :
    (decimal : ℕ → Bytes) (c : LogCall) (cs : List LogCall) (mem : Mem)
    → all_granted mem ≡ true
    → Ends
        (λ r m. r.1 ≡ (if is_set c.env then entries decimal (c ∷ cs) else []))
        (log_all decimal (c ∷ cs) new_logger mem)
unfolding check_env
log_all-entries decimal c cs mem g =
    Ends-map _ _ (log_all decimal (c ∷ cs) new_logger mem)
      (Writes-call decimal c cs new_logger (is_set c.env) refl
        (Writes-checked decimal cs (is_set c.env)) mem g)
      λ r m k. k.0 ∙ split_flag (is_set c.env)
  where
    split_flag :
        (b : Bool) → written decimal (c ∷ cs) b ≡ (if b then entries decimal (c ∷ cs) else [])
    split_flag true = refl
    split_flag false = refl
