-- ===== src/Lifetime/Grown.antt =====
-- The blocks that functions of src/gdbwire.c, src/gdbwire_mi_parser.c and src/gdbwire_string.c have
-- allocated so far, and what allocations and releases do to them.
use gdbwire.Base.{
  suc, ◌≤◌, ◌≡◌, sym, ◌∙◌, subst, Bool, true, false, not, ◌&&◌, Bool-cases, inl, inr, Option, none,
  some, List, [], ◌∷◌, ◌++◌, ◌==◌, if◌then◌else◌, mem_byte, arith, Mem,
}
use gdbwire.Release.{Address, Allocated, Release, ◌then◌}
use gdbwire.Release.Order.{Releases, Releases-AreBlocks, AreBlocks}
use gdbwire.Lifetime.{Heap, H, with_block, calloc, next_answer, cleaned, continued, allocating}
use gdbwire.Lifetime.Apart.{
  mem-append, AreBlocks-live, AreBlocks-change, AreBlocks-split, AreBlocks-swap,
}

-- Since `live0` the blocks `xs` were allocated, and nothing else has changed.
pub record Grown (live0 : Allocated) (xs : List Address) (h : Heap) : Type 0 where
  pub above : (a : Address) → h.fresh ≤ a → h.live a ≡ false
  pub blocks : AreBlocks h.live xs
  pub others : (a : Address) → mem_byte a xs ≡ false → h.live a ≡ live0 a
  pub added : (a : Address) → mem_byte a xs ≡ true → live0 a ≡ false

-- The order in which the blocks are listed makes no difference.
pub Grown-swap :
    (live0 : Allocated) (xs ys zs : List Address) (h : Heap)
    → Grown live0 (xs ++ (ys ++ zs)) h
    → Grown live0 (ys ++ (xs ++ zs)) h
Grown-swap live0 xs ys zs h g = record {
  above = g.above;
  blocks = AreBlocks-swap h.live xs ys zs g.blocks;
  others = λ a k. g.others a (same a ∙ k);
  added = λ a k. g.added a (same a ∙ k);
}
  where
    same : (a : Address) → mem_byte a (xs ++ (ys ++ zs)) ≡ mem_byte a (ys ++ (xs ++ zs))
    same a =
        let one = mem-append a xs (ys ++ zs) in
        let two = mem-append a ys zs in
        let three = mem-append a ys (xs ++ zs) in let four = mem-append a xs zs in ground arith

new_block-Grown :
    (live0 : Allocated) (xs : List Address) (h : Heap) (mem : Mem)
    → Grown live0 xs h
    → Grown live0
        (h.fresh ∷ xs)
        (record { live = with_block h.fresh h.live; fresh = suc h.fresh; answers = mem })
new_block-Grown live0 xs h mem g = record {
  above = λ a le. let free_now = g.above a (omega arith) in ground arith;
  blocks = (
    ground arith,
    outside,
    AreBlocks-change h.live (with_block h.fresh h.live) xs
        (λ a k. let allocated = AreBlocks-live h.live xs a g.blocks k in ground arith) g.blocks,
  );
  others = λ a k. let same = g.others a (ground arith) in ground arith;
  added = λ a k. elim (Bool-cases (a == h.fresh)) [
    | inl new ↦
        let e : a ≡ h.fresh = ground arith in
        subst (λ b. live0 b ≡ false) (sym e) (sym (g.others h.fresh outside) ∙ unused)
    | inr old ↦ g.added a (ground arith)
  ];
}
  where
    unused : h.live h.fresh ≡ false
    unused = g.above h.fresh (omega arith)

    outside : mem_byte h.fresh xs ≡ false
    outside = elim (Bool-cases (mem_byte h.fresh xs)) [
      | inr out ↦ out
      | inl inside ↦
          let allocated = AreBlocks-live h.live xs h.fresh g.blocks inside in
          absurd (ground (arith, unused))
    ]

-- A release of the last blocks.
released-Grown :
    (live0 : Allocated) (ys xs : List Address) (h : Heap) (live1 : Allocated)
    → Grown live0 (ys ++ xs) h
    → ((a : Address) → live1 a ≡ (h.live a && not (mem_byte a ys)))
    → Grown live0 xs (record h { live = live1 })
released-Grown live0 ys xs h live1 g e = record {
  above = λ a le. let free_now = g.above a le in let now = e a in ground arith;
  blocks =
      let (first, second, apart) = AreBlocks-split h.live ys xs g.blocks in
      AreBlocks-change h.live live1 xs
        (λ a k.
          let allocated = AreBlocks-live h.live xs a second k in
          let now = e a in
          elim (Bool-cases (mem_byte a ys)) [
            | inl inside ↦ let out = apart a inside in absurd (ground arith)
            | inr out ↦ ground arith
          ])
        second;
  others = λ a k.
      let now = e a in
      let both = mem-append a ys xs in
      elim (Bool-cases (mem_byte a ys)) [
        | inl inside ↦ let gone = g.added a (ground arith) in ground arith
        | inr out ↦ let same = g.others a (ground arith) in ground arith
      ];
  added = λ a k. let both = mem-append a ys xs in g.added a (ground arith);
}

-- NULL, with the blocks `xs`, or a result with its own blocks in front of them.
abbrev pub Outcome :
    {B : Type 0} → Allocated → List Address → (B → List Address) → Option (Option B × Heap) → Type 0
Outcome live0 xs blocks none = ⊥
Outcome live0 xs blocks (some (none, h)) = Grown live0 xs h
Outcome live0 xs blocks (some (some b, h)) = Grown live0 (blocks b ++ xs) h

pub calloc-Outcome :
    (live0 : Allocated) (xs : List Address) (h : Heap)
    → Grown live0 xs h
    → Outcome live0 xs (λ a. a ∷ []) (calloc h)
unfolding calloc
calloc-Outcome live0 xs h g = go h.answers
  where
    go : (mem : Mem) → Outcome live0 xs (λ a. a ∷ []) (next_answer h mem)
    go [] = new_block-Grown live0 xs h [] g
    go (true ∷ mem) = new_block-Grown live0 xs h mem g
    go (false ∷ mem) = record {
      above = g.above;
      blocks = g.blocks;
      others = g.others;
      added = g.added;
    }

pub cleaned-Outcome :
    {B : Type 0} (blocks : B → List Address) (live0 : Allocated) (ys xs : List Address)
    (f : Release) (h : Heap)
    → Releases f ys
    → Grown live0 (ys ++ xs) h
    → Outcome {B = B} live0 xs blocks (cleaned f h)
cleaned-Outcome {B} blocks live0 ys xs f h r g =
    let (live1, e, at) =
      Releases-AreBlocks f ys h.live r (AreBlocks-split h.live ys xs g.blocks).0 in
    subst
      (λ o. Outcome live0 xs blocks (elim o as (λ _. Option (Option B × Heap)) [
        | none ↦ none
        | some l ↦ some (none, record h { live = l })
      ]))
      (sym e) (released-Grown live0 ys xs h live1 g at)

-- A step that may give NULL, behind steps that have allocated `ys`, which the release `f` releases.
pub allocating-Outcome :
    {A B : Type 0} (blocks : A → List Address) (blocks1 : B → List Address) (live0 : Allocated)
    (ys xs : List Address) (m : H (Option A)) (f : Release) (k : A → H (Option B)) (h : Heap)
    → Outcome live0 (ys ++ xs) blocks (m h)
    → Releases f ys
    → ((a : A) (h1 : Heap)
        → Grown live0 (blocks a ++ (ys ++ xs)) h1
        → Outcome live0 xs blocks1 (k a h1))
    → Outcome live0 xs blocks1 (allocating m f k h)
allocating-Outcome {A} blocks blocks1 live0 ys xs m f k h o r next = go (m h) o
  where
    go :
        (x : Option (Option A × Heap))
        → Outcome live0 (ys ++ xs) blocks x
        → Outcome live0 xs blocks1 (continued f k x)
    go none o = absurd o
    go (some (none, h1)) o = cleaned-Outcome blocks1 live0 ys xs f h1 r o
    go (some (some a, h1)) o = next a h1 o

pub Outcome-if :
    {B : Type 0} (blocks : B → List Address) (live0 : Allocated) (xs : List Address) (b : Bool)
    (m k : H (Option B)) (h : Heap)
    → Outcome live0 xs blocks (m h)
    → Outcome live0 xs blocks (k h)
    → Outcome live0 xs blocks ((if b then m else k) h)
Outcome-if blocks live0 xs true m k h o p = o
Outcome-if blocks live0 xs false m k h o p = p
