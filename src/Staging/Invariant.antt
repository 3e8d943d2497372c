-- ===== src/Staging/Invariant.antt =====
-- The invariants that src/consensus/staging states in comments: the pending queue is a hash chain
-- behind the last block that was committed for good.
use powder_raft.Common.{
  ℕ, ◌+◌, ◌<◌, ◌≡◌, List, [], ◌∷◌, Option, none, some, map_or, All, refl, arith, length, subst,
}
use powder_raft.Types.{CachedBlock}
use powder_raft.Chain.{Links}
use powder_raft.Staging.State.{Staging, PendingBlock, blocks_of}

-- The queue stands behind `parent`, or begins with block 1.
abbrev pub PendingLinks : Option CachedBlock → List PendingBlock → Type 0
PendingLinks none [] = Unit {0}
PendingLinks none (p ∷ ps) = (p.n ≡ 1) × Links p.cached (blocks_of ps)
PendingLinks (some b) ps = Links b (blocks_of ps)

abbrev pub number_of : Option CachedBlock → ℕ
number_of = map_or 0 (λ b. b.n)

-- The certificates in a block are about earlier blocks.
abbrev pub CertifiesEarlier : CachedBlock → Type 0
CertifiesEarlier b = All (λ q. q.n < b.n) b.qc

pub record IsValid (s : Staging) : Type 0 where
  pub links : PendingLinks s.curr_parent_for_pending s.pending_blocks
  -- `bci == pending_blocks.front().n - 1`
  pub parent : number_of s.curr_parent_for_pending ≡ s.bci
  pub certified : All (λ p. CertifiesEarlier p.cached) s.pending_blocks

-- The number of the last block that staging knows.
abbrev pub last_n : Staging → ℕ
last_n s = s.bci + length s.pending_blocks

-- Numbers in the queue go from `bci + 1` on.
abbrev pub NumberedFrom : ℕ → List PendingBlock → Type 0
NumberedFrom k [] = Unit {0}
NumberedFrom k (p ∷ ps) = (p.n ≡ k + 1) × NumberedFrom (k + 1) ps

pub Links-NumberedFrom :
    (b : CachedBlock) (ps : List PendingBlock) (k : ℕ)
    → b.n ≡ k
    → Links b (blocks_of ps)
    → NumberedFrom k ps
Links-NumberedFrom b [] k e h = tt
Links-NumberedFrom b (p ∷ ps) k e h = (
  omega (arith, h.0.number),
  Links-NumberedFrom p.cached ps (k + 1) (omega (arith, h.0.number)) h.1,
)

PendingLinks-NumberedFrom :
    (o : Option CachedBlock) (ps : List PendingBlock)
    → PendingLinks o ps
    → NumberedFrom (number_of o) ps
PendingLinks-NumberedFrom none [] h = tt
PendingLinks-NumberedFrom none (p ∷ ps) h =
    (omega (arith, h.0), Links-NumberedFrom p.cached ps (0 + 1) (omega (arith, h.0)) h.1)
PendingLinks-NumberedFrom (some b) ps h = Links-NumberedFrom b ps b.n refl h

-- The queue of a valid state is numbered from the Byzantine commit index on, with no gap.
pub IsValid-NumberedFrom : (s : Staging) → IsValid s → NumberedFrom s.bci s.pending_blocks
IsValid-NumberedFrom s v =
    subst (λ k. NumberedFrom k s.pending_blocks) v.parent
      (PendingLinks-NumberedFrom s.curr_parent_for_pending s.pending_blocks v.links)
