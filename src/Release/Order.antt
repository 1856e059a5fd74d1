-- ===== src/Release/Order.antt =====
-- Runs that release a list of blocks in order.
use gdbwire.Base.{
  ◌≡◌, refl, ap, sym, ◌∙◌, subst, List, [], ◌∷◌, ◌++◌, true, false, not, ◌&&◌, Option, none, some,
  if◌then◌else◌, mem_byte, arith, append_assoc,
}
use gdbwire.Release.{Address, Allocated, Release, ◌then◌, without, read, free, free_text}

-- The addresses are allocated, and stay so up to the release of those in front of them.
abbrev pub AreAllocated : List Address → Allocated → Type 0
AreAllocated [] live = Unit {0}
AreAllocated (a ∷ xs) live = (live a ≡ true) × AreAllocated xs (without a live)

abbrev pub without_all : List Address → Allocated → Allocated
without_all [] live = live
without_all (a ∷ xs) live = without_all xs (without a live)

-- The run releases these addresses, in this order.
pub record Releases (f : Release) (xs : List Address) : Type 0 where
  pub runs : (live : Allocated) → AreAllocated xs live → f live ≡ some (without_all xs live)

AreAllocated-append :
    (xs ys : List Address) (live : Allocated)
    → AreAllocated (xs ++ ys) live
    → AreAllocated xs live × AreAllocated ys (without_all xs live)
AreAllocated-append [] ys live h = (tt, h)
AreAllocated-append (a ∷ xs) ys live h =
    let k = AreAllocated-append xs ys (without a live) h.1 in ((h.0, k.0), k.1)

without_all-append :
    (xs ys : List Address) (live : Allocated)
    → without_all (xs ++ ys) live ≡ without_all ys (without_all xs live)
without_all-append [] ys live = refl
without_all-append (a ∷ xs) ys live = without_all-append xs ys (without a live)

-- An address that is released later is allocated.
still_allocated :
    (xs : List Address) (a : Address) (live : Allocated)
    → AreAllocated (xs ++ (a ∷ [])) live
    → live a ≡ true
still_allocated [] a live h = h.0
still_allocated (b ∷ xs) a live h =
    let later = still_allocated xs a (without b live) h.1 in ground arith

pub Releases-then :
    (f g : Release) (xs ys : List Address)
    → Releases f xs
    → Releases g ys
    → Releases (f then g) (xs ++ ys)
Releases-then f g xs ys h k = record {
  runs = λ live fit.
      let (first, second) = AreAllocated-append xs ys live fit in
      rw (h.runs live first, ◌then◌)
        (k.runs (without_all xs live) second ∙ ap some (sym (without_all-append xs ys live)));
}

-- A block is read in front of a run that releases it at its end.
pub Releases-read :
    (a : Address) (f : Release) (xs : List Address)
    → Releases f (xs ++ (a ∷ []))
    → Releases (read a then f) (xs ++ (a ∷ []))
Releases-read a f xs h = record {
  runs = λ live fit. rw (still_allocated xs a live fit, ◌then◌, read) (h.runs live fit);
}

pub Releases-free : (a : Address) → Releases (free a) (a ∷ [])
Releases-free a = record { runs = λ live fit. rw fit.0 refl }

abbrev pub text_block : Option Address → List Address
text_block none = []
text_block (some a) = a ∷ []

pub Releases-text : (t : Option Address) → Releases (free_text t) (text_block t)
Releases-text none = record { runs = λ live fit. refl }
Releases-text (some a) = Releases-free a

-- One member of the block at `a` is read and released; `xs` are the blocks of the rest.
pub Releases-member :
    (a : Address) (f g : Release) (xs ys : List Address)
    → Releases f xs
    → Releases g (ys ++ (a ∷ []))
    → Releases (read a then f then g) ((xs ++ ys) ++ (a ∷ []))
Releases-member a f g xs ys h k = Releases-read a (f then g) (xs ++ ys) (
    subst (Releases (f then g)) (sym (append_assoc xs ys (a ∷ [])))
      (Releases-then f g xs (ys ++ (a ∷ [])) h k))

-- Every block is allocated, and no two are the same.
abbrev pub AreBlocks : Allocated → List Address → Type 0
AreBlocks live [] = Unit {0}
AreBlocks live (a ∷ xs) = (live a ≡ true) × (mem_byte a xs ≡ false) × AreBlocks live xs

AreBlocks-without :
    (a : Address) (live : Allocated) (xs : List Address)
    → mem_byte a xs ≡ false
    → AreBlocks live xs
    → AreBlocks (without a live) xs
AreBlocks-without a live [] h k = tt
AreBlocks-without a live (x ∷ xs) h k =
    (ground (arith, k.0), k.1, AreBlocks-without a live xs (ground arith) k.2)

pub AreBlocks-AreAllocated :
    (live : Allocated) (xs : List Address) → AreBlocks live xs → AreAllocated xs live
AreBlocks-AreAllocated live [] h = tt
AreBlocks-AreAllocated live (a ∷ xs) h =
    (h.0, AreBlocks-AreAllocated (without a live) xs (AreBlocks-without a live xs h.1 h.2))

pub without_all-at :
    (xs : List Address) (live : Allocated) (b : Address)
    → without_all xs live b ≡ (live b && not (mem_byte b xs))
without_all-at [] live b = ground arith
without_all-at (a ∷ xs) live b =
    let rest = without_all-at xs (without a live) b in ground (arith, rest)

-- What a run that releases these blocks does where they are allocated at different addresses: it
-- ends, and just these are released.
pub Releases-AreBlocks :
    (f : Release) (xs : List Address) (live : Allocated)
    → Releases f xs
    → AreBlocks live xs
    → (live1 : Allocated) × (f live ≡ some live1)
      × ((a : Address) → live1 a ≡ (live a && not (mem_byte a xs)))
Releases-AreBlocks f xs live h fit = (
  without_all xs live,
  h.runs live (AreBlocks-AreAllocated live xs fit),
  λ a. without_all-at xs live a,
)
