-- ===== src/Base/Run.antt =====
-- How a C function runs: it gives a value, or returns an error code early, or its behaviour is
-- undefined. `Mem` is what the allocator will answer: the outcomes of the coming calls of malloc,
-- calloc and realloc, in order; behind the end of the list every call is granted.
use mathlib.Core.Path.{◌≡◌, refl}
use mathlib.Core.Bool.{Bool, true, false, ◌&&◌}
use mathlib.Core.List.{List, [], ◌∷◌}

-- `enum gdbwire_result`
pub data GdbwireResult : Type 0 where
  gdbwire_ok gdbwire_assert gdbwire_logic gdbwire_nomem : GdbwireResult

abbrev pub Mem : Type 0
Mem = List Bool

pub data Exec (A : Type 0) : Type 0 where
  value : A → Mem → Exec A
  stop : GdbwireResult → Mem → Exec A
  fault : Exec A

abbrev pub M : Type 0 → Type 0
M A = Mem → Exec A

abbrev pub pure : {A : Type 0} → A → M A
pure a mem = value a mem

-- an early return with an error code
abbrev pub fail : {A : Type 0} → GdbwireResult → M A
fail r mem = stop r mem

-- undefined behaviour
abbrev pub undefined : {A : Type 0} → M A
undefined mem = fault

abbrev pub bind_exec : {A B : Type 0} → Exec A → (A → M B) → Exec B
bind_exec (value a mem) f = f a mem
bind_exec (stop r mem) f = stop r mem
bind_exec fault f = fault

infixl 5 ◌>>=◌ ◌>>◌
abbrev pub ◌>>=◌ : {A B : Type 0} → M A → (A → M B) → M B
◌>>=◌ m f mem = bind_exec (m mem) f

abbrev pub ◌>>◌ : {A B : Type 0} → M A → M B → M B
m >> k = m >>= λ _. k

-- `GDBWIRE_ASSERT(expr)`
abbrev pub assert : Bool → M (Unit {0})
assert true = pure tt
assert false = fail gdbwire_assert

-- The answer to the next allocation.
abbrev pub allocate : M Bool
allocate [] = value true []
allocate (b ∷ mem) = value b mem

-- The run gives a value, and `P` holds of it: neither an early return nor undefined behaviour.
abbrev pub Ends : {A : Type 0} → (A → Mem → Type 0) → Exec A → Type 0
Ends P (value a mem) = P a mem
Ends P (stop r mem) = ⊥
Ends P fault = ⊥

pub Ends-bind :
    {A B : Type 0} (P : A → Mem → Type 0) (Q : B → Mem → Type 0) (e : Exec A) (f : A → M B)
    → Ends P e
    → ((a : A) (mem : Mem) → P a mem → Ends Q (f a mem))
    → Ends Q (bind_exec e f)
Ends-bind P Q (value a mem) f h k = k a mem h
Ends-bind P Q (stop r mem) f h k = absurd h
Ends-bind P Q fault f h k = absurd h

pub Ends-map :
    {A : Type 0} (P Q : A → Mem → Type 0) (e : Exec A)
    → Ends P e
    → ((a : A) (mem : Mem) → P a mem → Q a mem)
    → Ends Q e
Ends-map P Q (value a mem) h k = k a mem h
Ends-map P Q (stop r mem) h k = absurd h
Ends-map P Q fault h k = absurd h

-- Every coming allocation is granted.
abbrev pub all_granted : Mem → Bool
all_granted [] = true
all_granted (b ∷ mem) = b && all_granted mem

pub bind_exec_assoc :
    {A B C : Type 0} (e : Exec A) (f : A → M B) (g : B → M C)
    → bind_exec (bind_exec e f) g ≡ bind_exec e (λ a mem. bind_exec (f a mem) g)
bind_exec_assoc (value a mem) f g = refl
bind_exec_assoc (stop r mem) f g = refl
bind_exec_assoc fault f g = refl
