-- ===== src/Lifetime/Balance.antt =====
-- gdbwire_create and gdbwire_destroy of src/gdbwire.c: the balance of what they allocate.
use gdbwire.Base.{
  ◌≤◌, append-nil, ◌≡◌, refl, ap, sym, ◌∙◌, subst, Bool, true, false, Bool-cases, inl, inr, Option,
  none, some, List, [], ◌∷◌, ◌++◌, mem_byte, arith, append_assoc,
}
use gdbwire.Release.{Address, Allocated, Release, ◌then◌, nothing, free}
use gdbwire.Release.Order.{
  Releases, Releases-then, Releases-read, Releases-free, Releases-member, Releases-AreBlocks,
}
use gdbwire.Lifetime.{
  Heap, H, calloc, StringAt, string_destroy, string_create, Blocks, ParserAt, WireAt, given,
  parser_create_at, parser_destroy, wire_create_at, wire_destroy,
}
use gdbwire.Lifetime.Grown.{
  Grown, Outcome, calloc-Outcome, cleaned-Outcome, allocating-Outcome, Outcome-if, Grown-swap,
}
use gdbwire.Lifetime.Buffer.{
  IsObject, Releases-nothing, string_blocks, string_destroy-Releases, string_create-Outcome,
}

module _ (lex_init pstate_new : H (Option Blocks)) (lex_destroy pstate_delete : Blocks → Release)
    (lexer : IsObject lex_init lex_destroy) (pstate : IsObject pstate_new pstate_delete) where
  abbrev members : Option Blocks → List Address
  members none = []
  members (some xs) = xs

  abbrev buffer_blocks : Option StringAt → List Address
  buffer_blocks none = []
  buffer_blocks (some s) = string_blocks s

  -- The blocks of a parser, the last one first.
  abbrev parser_blocks : ParserAt → List Address
  parser_blocks p =
      members p.mipst ++ (members p.mils ++ (buffer_blocks p.buffer ++ (p.address ∷ [])))

  abbrev wire_blocks : WireAt → List Address
  wire_blocks w = parser_blocks w.parser ++ (w.address ∷ [])

  -- The releases on the error paths of `gdbwire_mi_parser_create`.
  buffer_cleanup :
      (s : StringAt) (a : Address)
      → Releases (string_destroy (some s) then free a) (string_blocks s ++ (a ∷ []))
  buffer_cleanup s a =
      Releases-then (string_destroy (some s)) (free a) (string_blocks s) (a ∷ [])
        (string_destroy-Releases s) (Releases-free a)

  lexer_cleanup :
      (mils : Blocks) (s : StringAt) (a : Address)
      → Releases
          (lex_destroy mils then string_destroy (some s) then free a)
          (mils ++ (string_blocks s ++ (a ∷ [])))
  lexer_cleanup mils s a =
      Releases-then (lex_destroy mils) _ mils _ (lexer.destroys mils) (buffer_cleanup s a)

  pstate_cleanup :
      (mipst mils : Blocks) (s : StringAt) (a : Address)
      → Releases
          (pstate_delete mipst then lex_destroy mils then string_destroy (some s) then free a)
          (mipst ++ (mils ++ (string_blocks s ++ (a ∷ []))))
  pstate_cleanup mipst mils s a =
      Releases-then (pstate_delete mipst) _ mipst _ (pstate.destroys mipst) (lexer_cleanup mils s a)

  parser_create-Outcome :
      (callback : Bool) (live0 : Allocated) (xs : List Address) (h : Heap)
      → Grown live0 xs h
      → Outcome live0 xs parser_blocks
          (parser_create_at lex_init pstate_new lex_destroy pstate_delete callback h)
  unfolding parser_create_at
  parser_create-Outcome callback live0 xs h g =
      allocating-Outcome (λ a. a ∷ []) parser_blocks live0 [] xs calloc nothing _ h
        (calloc-Outcome live0 xs h g) Releases-nothing
        λ a h1 g1.
          allocating-Outcome string_blocks parser_blocks live0 (a ∷ []) xs string_create (free a) _
            h1 (string_create-Outcome live0 (a ∷ xs) h1 g1) (Releases-free a)
            λ s h2 g2.
              allocating-Outcome (λ ys. ys) parser_blocks live0 (string_blocks s ++ (a ∷ [])) xs
                lex_init _ _ h2
                (lexer.creates live0 _ h2 (regroup (string_blocks s) (a ∷ []) xs h2 g2))
                (buffer_cleanup s a)
                λ mils h3 g3.
                  allocating-Outcome (λ ys. ys) parser_blocks live0
                    (mils ++ (string_blocks s ++ (a ∷ []))) xs pstate_new _ _ h3
                    (pstate.creates live0 _ h3
                      (regroup mils (string_blocks s ++ (a ∷ [])) xs h3 g3))
                    (lexer_cleanup mils s a)
                    λ mipst h4 g4.
                      let whole = regroup mipst (mils ++ (string_blocks s ++ (a ∷ []))) xs h4 g4 in
                      Outcome-if parser_blocks live0 xs callback _ _ h4 whole (
                        cleaned-Outcome parser_blocks live0
                          (mipst ++ (mils ++ (string_blocks s ++ (a ∷ [])))) xs _ h4
                          (pstate_cleanup mipst mils s a) whole)
    where
      regroup :
          (us vs ws : List Address) (h1 : Heap)
          → Grown live0 (us ++ (vs ++ ws)) h1
          → Grown live0 ((us ++ vs) ++ ws) h1
      regroup us vs ws h1 = subst (λ l. Grown live0 l h1) (sym (append_assoc us vs ws))

  wire_create-Outcome :
      (live0 : Allocated) (h : Heap)
      → Grown live0 [] h
      → Outcome live0 [] wire_blocks
          (wire_create_at lex_init pstate_new lex_destroy pstate_delete h)
  unfolding wire_create_at
  wire_create-Outcome live0 h g =
      allocating-Outcome (λ a. a ∷ []) wire_blocks live0 [] [] calloc nothing _ h
        (calloc-Outcome live0 [] h g) Releases-nothing
        λ a h1 g1.
          allocating-Outcome parser_blocks wire_blocks live0 (a ∷ []) []
            (parser_create_at lex_init pstate_new lex_destroy pstate_delete true) (free a) _ h1
            (parser_create-Outcome true live0 (a ∷ []) h1 g1) (Releases-free a)
            λ p h2 g2.
              subst (λ l. Grown live0 l h2) (sym (append_assoc (parser_blocks p) (a ∷ []) [])) g2

  -- The blocks in the order in which `gdbwire_destroy` releases them.
  abbrev parser_released : ParserAt → List Address
  parser_released p =
      (buffer_blocks p.buffer ++ (members p.mils ++ members p.mipst)) ++ (p.address ∷ [])

  abbrev wire_released : WireAt → List Address
  wire_released w = parser_released w.parser ++ (w.address ∷ [])

  members-Releases :
      (f : Blocks → Release)
      → ((xs : Blocks) → Releases (f xs) xs)
      → (m : Option Blocks) → Releases (given f m) (members m)
  members-Releases f h none = Releases-nothing
  members-Releases f h (some xs) = h xs

  buffer-Releases : (b : Option StringAt) → Releases (string_destroy b) (buffer_blocks b)
  buffer-Releases none = unfold string_destroy in Releases-nothing
  buffer-Releases (some s) = string_destroy-Releases s

  parser_destroy-Releases :
      (p : ParserAt)
      → Releases (parser_destroy lex_destroy pstate_delete (some p)) (parser_released p)
  unfolding parser_destroy
  parser_destroy-Releases p =
      Releases-member p.address (string_destroy p.buffer) _ (buffer_blocks p.buffer)
        (members p.mils ++ members p.mipst) (buffer-Releases p.buffer)
        (Releases-member p.address (given lex_destroy p.mils) _ (members p.mils) (members p.mipst)
          (members-Releases lex_destroy lexer.destroys p.mils)
          (Releases-read p.address (given pstate_delete p.mipst then free p.address)
            (members p.mipst)
            (Releases-then (given pstate_delete p.mipst) (free p.address) (members p.mipst)
              (p.address ∷ []) (members-Releases pstate_delete pstate.destroys p.mipst)
              (Releases-free p.address))))

  wire_destroy-Releases :
      (w : WireAt) → Releases (wire_destroy lex_destroy pstate_delete (some w)) (wire_released w)
  unfolding wire_destroy
  wire_destroy-Releases w =
      let f = parser_destroy lex_destroy pstate_delete (some w.parser) in
      Releases-read w.address (f then free w.address) (parser_released w.parser) (
        Releases-then f (free w.address) (parser_released w.parser) (w.address ∷ [])
          (parser_destroy-Releases w.parser) (Releases-free w.address))

  -- The same blocks, in the one order and in the other.
  wire_blocks-released :
      (live0 : Allocated) (w : WireAt) (h : Heap)
      → Grown live0 (wire_blocks w) h
      → Grown live0 (wire_released w) h
  wire_blocks-released live0 w h g =
      subst (λ l. Grown live0 l h) second
        (Grown-swap live0 s b (m ++ t) h (
          subst (λ l. Grown live0 l h) (append_assoc s b (m ++ t))
            (Grown-swap live0 m (s ++ b) t h (subst (λ l. Grown live0 l h) first g))))
    where
      m : List Address
      m = members w.parser.mipst

      s : List Address
      s = members w.parser.mils

      b : List Address
      b = buffer_blocks w.parser.buffer

      pa : List Address
      pa = w.parser.address ∷ []

      wa : List Address
      wa = w.address ∷ []

      t : List Address
      t = pa ++ wa

      first : (m ++ (s ++ (b ++ pa))) ++ wa ≡ m ++ ((s ++ b) ++ t)
      first =
          append_assoc m (s ++ (b ++ pa)) wa
          ∙ ap (λ l. m ++ l)
              (append_assoc s (b ++ pa) wa
                ∙ ap (λ l. s ++ l) (append_assoc b pa wa)
                ∙ sym (append_assoc s b t))

      second : b ++ (s ++ (m ++ t)) ≡ ((b ++ (s ++ m)) ++ pa) ++ wa
      second = sym (
          append_assoc (b ++ (s ++ m)) pa wa
          ∙ append_assoc b (s ++ m) t
          ∙ ap (λ l. b ++ l) (append_assoc s m t))

  -- Just what was allocated before is allocated: at once, if NULL was returned, and behind the release
  -- of the gdbwire otherwise, which ends.
  abbrev pub Balanced : Allocated → Option (Option WireAt × Heap) → Type 0
  Balanced live0 none = ⊥
  Balanced live0 (some (none, h)) = (a : Address) → h.live a ≡ live0 a
  Balanced live0 (some (some w, h)) =
      (live1 : Allocated) × (wire_destroy lex_destroy pstate_delete (some w) h.live ≡ some live1)
      × ((a : Address) → live1 a ≡ live0 a)

  Outcome-Balanced :
      (live0 : Allocated) (x : Option (Option WireAt × Heap))
      → Outcome live0 [] wire_blocks x
      → Balanced live0 x
  Outcome-Balanced live0 none o = o
  Outcome-Balanced live0 (some (none, h)) o = λ a. o.others a refl
  Outcome-Balanced live0 (some (some w, h)) o =
      let g =
        wire_blocks-released live0 w h
          (subst (λ l. Grown live0 l h) (append-nil (wire_blocks w)) o) in
      let (live1, e, at) =
        Releases-AreBlocks _ (wire_released w) h.live (wire_destroy-Releases w) g.blocks in
      (
        live1,
        e,
        λ a. elim (Bool-cases (mem_byte a (wire_released w))) [
          | inl inside ↦ let gone = g.added a inside in let now = at a in ground arith
          | inr out ↦ let same = g.others a out in let now = at a in ground arith
        ],
      )

  -- `gdbwire_create` returns, whatever allocations are refused, and nothing that it allocates is
  -- left: where it returns NULL, just what was allocated before is allocated, and where it returns
  -- a gdbwire, `gdbwire_destroy` of it ends, reads and releases no block that is not allocated, and
  -- just what was allocated before is then allocated.
  pub wire_create-Balanced :
      (h : Heap)
      → ((a : Address) → h.fresh ≤ a → h.live a ≡ false)
      → Balanced h.live (wire_create_at lex_init pstate_new lex_destroy pstate_delete h)
  wire_create-Balanced h above =
      Outcome-Balanced h.live (wire_create_at lex_init pstate_new lex_destroy pstate_delete h) (
        wire_create-Outcome h.live h (record {
          above = above;
          blocks = tt;
          others = λ a k. refl;
          added = λ a k. absurd (ground arith);
        }))
