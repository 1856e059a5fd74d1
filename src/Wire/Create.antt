-- ===== src/Wire/Create.antt =====
-- `gdbwire_create`: a new gdbwire and its parser.
use gdbwire.Base.{
  ◌≡◌, ◌≢◌, refl, [], ◌∷◌, Bool, true, false, Option, none, some, arith, M, Mem, value, Ends,
  Ends-bind, bind_exec, ◌>>=◌, allocate, all_granted,
}
use gdbwire.StringBuf.{GdbwireString, create}
use gdbwire.StringBuf.Holds.{Holds}
use gdbwire.StringBuf.Create.{create_lem, Fresh}
use gdbwire.MiParser.{MiParser}
use gdbwire.Wire.{InterpreterExecContext, parser_create, wire_create}

pub allocate-bind :
    {B : Type 0} (Q : B → Mem → Type 0) (mem : Mem) (k : Bool → M B)
    → all_granted mem ≡ true
    → ((m : Mem) → all_granted m ≡ true → Ends Q (k true m))
    → Ends Q (bind_exec (allocate mem) k)
allocate-bind Q [] k g go = go [] refl
allocate-bind Q (true ∷ mem) k g go = go mem g
allocate-bind Q (false ∷ mem) k g go = absurd (ground arith)

-- The creation of the lexer and of the push parser, where the allocator refuses nothing: they
-- exist, in the state `l`.
pub record Starts {L : Type 0} (new_parser : M (Option L)) (l : L) : Type 0 where
  pub begins :
      (mem : Mem)
      → all_granted mem ≡ true
      → Ends (λ o m. (o ≡ some l) × (all_granted m ≡ true)) (new_parser mem)

module _ {L : Type 0} (new_parser : M (Option L)) where
  -- A new gdbwire: an empty buffer, and the state that it starts in.
  abbrev pub Created :
      L → InterpreterExecContext → Option (MiParser (L × InterpreterExecContext)) → Type 0
  Created l ctx none = ⊥
  Created l ctx (some p) = Holds p.buffer [] × (p.state ≡ (l, ctx))

  pub wire_create-Created :
      (l : L) (ctx : InterpreterExecContext) (mem : Mem)
      → Starts new_parser l
      → all_granted mem ≡ true
      → Ends (λ o m. Created l ctx o × (all_granted m ≡ true)) (wire_create new_parser ctx mem)
  unfolding wire_create parser_create
  wire_create-Created l ctx mem starts g = allocate-bind _ mem _ g λ m1 g1.
      allocate-bind _ m1 _ g1
        λ m2 g2. Ends-bind _ _ (create m2) _ (create_lem m2) λ o m3 (f, w). buffered o m3 f (w g2)
    where
      buffered :
          (o : Option GdbwireString) (m : Mem)
          → Fresh o
          → (o ≢ none) × (all_granted m ≡ true)
          → Ends
              (λ o1 m1. Created l ctx o1 × (all_granted m1 ≡ true))
              ((elim o as (λ _. M (Option (MiParser (L × InterpreterExecContext)))) [
                | none ↦ λ m1. value none m1
                | some s ↦ new_parser >>= λ p. elim p [
                  | none ↦ λ m1. value none m1
                  | some l1 ↦ λ m1. value (some (record { buffer = s; state = (l1, ctx) })) m1
                ]
              ])
                m)
      buffered none m f w = absurd (w.0 refl)
      buffered (some s) m f w =
          Ends-bind _ _ (new_parser m) _ (starts.begins m w.1)
            λ o m1 (e, g1). rw e ((f.0, refl), g1)
