-- ===== src/Chain.antt =====
-- Hash chains of blocks: the shape that the log server and the staging area keep.
use powder_raft.Common.{
  ℕ, ◌+◌, ◌≤◌, ◌≡◌, refl, List, [], ◌∷◌, ◌++◌, some, arith, leb, ltb, back, retain, length,
}
use powder_raft.Types.{CachedBlock}

-- `c` may stand right behind `b`.
pub record Follows (b c : CachedBlock) : Type 0 where
  pub number : c.n ≡ b.n + 1
  pub parent : c.parent ≡ b.block_hash

-- The blocks stand in a chain behind `b`.
abbrev pub Links : CachedBlock → List CachedBlock → Type 0
Links b [] = Unit {0}
Links b (c ∷ r) = Follows b c × Links c r

abbrev pub IsChain : List CachedBlock → Type 0
IsChain [] = Unit {0}
IsChain (b ∷ r) = Links b r

-- The block at the end of a chain that begins with `b`.
abbrev pub end_of : CachedBlock → List CachedBlock → CachedBlock
end_of b [] = b
end_of b (c ∷ r) = end_of c r

abbrev pub up_to : ℕ → List CachedBlock → List CachedBlock
up_to n = retain (λ c. leb c.n n)

abbrev pub above : ℕ → List CachedBlock → List CachedBlock
above n = retain (λ c. ltb n c.n)

pub back-end_of : (b : CachedBlock) (r : List CachedBlock) → back (b ∷ r) ≡ some (end_of b r)
back-end_of b [] = refl
back-end_of b (c ∷ r) = back-end_of c r

pub Links-append :
    (b c : CachedBlock) (r : List CachedBlock)
    → Links b r
    → Follows (end_of b r) c
    → Links b (r ++ c ∷ [])
Links-append b c [] h f = (f, tt)
Links-append b c (d ∷ r) h f = (h.0, Links-append d c r h.1 f)

pub end_of-append : (b c : CachedBlock) (r : List CachedBlock) → end_of b (r ++ c ∷ []) ≡ c
end_of-append b c [] = refl
end_of-append b c (d ∷ r) = end_of-append d c r

-- The numbers grow by one along a chain.
pub number-end_of :
    (b : CachedBlock) (r : List CachedBlock) → Links b r → (end_of b r).n ≡ b.n + length r
number-end_of b [] h = omega arith
number-end_of b (c ∷ r) h = omega (arith, number-end_of c r h.1, h.0.number)

pub up_to_none :
    (n : ℕ) (b : CachedBlock) (r : List CachedBlock) → Links b r → n ≤ b.n → up_to n r ≡ []
up_to_none n b [] h le = refl
up_to_none n b (c ∷ r) h le = ground (arith, h.0.number, up_to_none n c r h.1)

pub above_all :
    (n : ℕ) (b : CachedBlock) (r : List CachedBlock) → Links b r → n ≤ b.n → above n r ≡ r
above_all n b [] h le = refl
above_all n b (c ∷ r) h le = ground (arith, h.0.number, above_all n c r h.1)

-- A rollback keeps a prefix of a chain.
pub Links-up_to : (n : ℕ) (b : CachedBlock) (r : List CachedBlock) → Links b r → Links b (up_to n r)
Links-up_to n b [] h = tt
Links-up_to n b (c ∷ r) h = ground (arith, h.0, Links-up_to n c r h.1, up_to_none n c r h.1)

pub IsChain-up_to : (n : ℕ) (l : List CachedBlock) → IsChain l → IsChain (up_to n l)
IsChain-up_to n [] h = tt
IsChain-up_to n (b ∷ r) h = ground (arith, Links-up_to n b r h, up_to_none n b r h)

-- A garbage collection keeps a suffix.
pub IsChain-above : (n : ℕ) (l : List CachedBlock) → IsChain l → IsChain (above n l)
IsChain-above n [] h = tt
IsChain-above n (b ∷ []) h = ground arith
IsChain-above n (b ∷ c ∷ r) h =
    ground (arith, h.0.number, IsChain-above n (c ∷ r) h.1, above_all n c r h.1)
