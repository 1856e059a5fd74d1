-- ===== src/Lifetime/Apart.antt =====
-- Lists of blocks that are allocated at different addresses, as src/gdbwire_mi_parser.c has them.
use gdbwire.Base.{
  ◌≡◌, refl, ap, sym, ◌∙◌, subst, true, false, ◌||◌, Bool-cases, inl, inr, List, [], ◌∷◌, ◌++◌,
  ◌==◌, mem_byte, arith,
}
use gdbwire.Release.{Address, Allocated}
use gdbwire.Release.Order.{AreBlocks}

pub mem-append :
    (a : Address) (xs ys : List Address) → mem_byte a (xs ++ ys) ≡ (mem_byte a xs || mem_byte a ys)
mem-append a [] ys = refl
mem-append a (x ∷ xs) ys = let rest = mem-append a xs ys in ground (arith, rest)

-- No address is in both lists.
abbrev AreApart : List Address → List Address → Type 0
AreApart xs ys = (a : Address) → mem_byte a xs ≡ true → mem_byte a ys ≡ false

pub AreBlocks-live :
    (live : Allocated) (xs : List Address) (a : Address)
    → AreBlocks live xs
    → mem_byte a xs ≡ true
    → live a ≡ true
AreBlocks-live live [] a h k = absurd (ground arith)
AreBlocks-live live (x ∷ xs) a h k = elim (Bool-cases (a == x)) [
  | inl same ↦ let e : a ≡ x = ground arith in ap live e ∙ h.0
  | inr other ↦ AreBlocks-live live xs a h.2 (ground arith)
]

-- Blocks that stay allocated.
pub AreBlocks-change :
    (live live1 : Allocated) (xs : List Address)
    → ((a : Address) → mem_byte a xs ≡ true → live1 a ≡ true)
    → AreBlocks live xs
    → AreBlocks live1 xs
AreBlocks-change live live1 [] f h = tt
AreBlocks-change live live1 (x ∷ xs) f h =
    (f x (ground arith), h.1, AreBlocks-change live live1 xs (λ a k. f a (ground arith)) h.2)

pub AreBlocks-split :
    (live : Allocated) (xs ys : List Address)
    → AreBlocks live (xs ++ ys)
    → AreBlocks live xs × AreBlocks live ys × AreApart xs ys
AreBlocks-split live [] ys h = (tt, h, λ a k. absurd (ground arith))
AreBlocks-split live (x ∷ xs) ys h =
    let (first, second, apart) = AreBlocks-split live xs ys h.2 in
    let outside = mem-append x xs ys in
    (
      (h.0, ground (arith, h.1, outside), first),
      second,
      λ a k. elim (Bool-cases (a == x)) [
        | inl same ↦
            let e : a ≡ x = ground arith in
            subst (λ b. mem_byte b ys ≡ false) (sym e) (ground (arith, h.1, outside))
        | inr other ↦ apart a (ground arith)
      ],
    )

AreBlocks-join :
    (live : Allocated) (xs ys : List Address)
    → AreBlocks live xs
    → AreBlocks live ys
    → AreApart xs ys
    → AreBlocks live (xs ++ ys)
AreBlocks-join live [] ys h k apart = k
AreBlocks-join live (x ∷ xs) ys h k apart =
    let outside = mem-append x xs ys in
    let other = apart x (ground arith) in
    (
      h.0,
      ground (arith, h.1, outside, other),
      AreBlocks-join live xs ys h.2 k (λ a m. apart a (ground arith)),
    )

-- The blocks in another order.
pub AreBlocks-swap :
    (live : Allocated) (xs ys zs : List Address)
    → AreBlocks live (xs ++ (ys ++ zs))
    → AreBlocks live (ys ++ (xs ++ zs))
AreBlocks-swap live xs ys zs h =
    let (bx, rest, far) = AreBlocks-split live xs (ys ++ zs) h in
    let (by, bz, near) = AreBlocks-split live ys zs rest in
    AreBlocks-join live ys (xs ++ zs) by
      (AreBlocks-join live xs zs bx bz
        (λ a k. let o = far a k in let m = mem-append a ys zs in ground arith))
      λ a k. elim (Bool-cases (mem_byte a xs)) [
        | inl in_xs ↦ let o = far a in_xs in let m = mem-append a ys zs in absurd (ground arith)
        | inr out ↦ let m = mem-append a xs zs in let o = near a k in ground arith
      ]
