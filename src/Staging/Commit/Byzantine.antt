-- ===== src/Staging/Commit/Byzantine.antt =====
-- Byzantine commits: the queue stays valid, the index only grows, and it grows by the two rules.
use powder_raft.Common.{
  ℕ, ◌+◌, ◌≤◌, ◌<◌, ◌≡◌, refl, sym, subst, List, [], ◌∷◌, ◌++◌, Option, none, some, arith, leb,
  if◌then◌else◌, length, All, Bool-cases, inl, inr, le-or-lt, leb_of_lt, leb_of_le,
}
use powder_raft.Types.{CachedBlock}
use powder_raft.Staging.State.{Staging, PendingBlock, blocks_of, emit, byz_commit, log_update_bci}
use powder_raft.Staging.Invariant.{PendingLinks, number_of, IsValid, CertifiesEarlier, last_n}
use powder_raft.Staging.Commit.{pop_committed, do_byzantine_commit}
use powder_raft.Staging.Commit.Pop.{Splits, pop-Splits}

pending_Splits :
    (n k : ℕ) (o : Option CachedBlock) (ps : List PendingBlock)
    → PendingLinks o ps
    → number_of o ≡ k
    → k < n
    → n ≤ k + length ps
    → Splits n ps (pop_committed n ps o)
pending_Splits n k o [] h e lo hi = absurd (omega arith)
pending_Splits n k none (p ∷ ps) h e lo hi =
    pop-Splits n p ps none h.1 (omega (arith, h.0)) (omega (arith, h.0))
pending_Splits n k (some b) (p ∷ ps) h e lo hi =
    pop-Splits n p ps (some b) h.1 (omega (arith, h.0.number)) (omega (arith, h.0.number))

-- A commit above the index and within the queue splits the queue.
pub commit_Splits :
    (n : ℕ) (s : Staging)
    → IsValid s
    → s.bci < n
    → n ≤ last_n s
    → Splits n s.pending_blocks (pop_committed n s.pending_blocks s.curr_parent_for_pending)
commit_Splits n s v lo hi =
    pending_Splits n s.bci s.curr_parent_for_pending s.pending_blocks v.links v.parent lo hi

All-append_right :
    (P : CachedBlock → Type 0) (xs ys : List CachedBlock) → All P (xs ++ ys) → All P ys
All-append_right P [] ys h = h
All-append_right P (x ∷ xs) ys h = All-append_right P xs ys h.1

All-blocks_of :
    (P : CachedBlock → Type 0) (ps : List PendingBlock)
    → All (λ p. P p.cached) ps
    → All P (blocks_of ps)
All-blocks_of P [] h = tt
All-blocks_of P (p ∷ ps) h = (h.0, All-blocks_of P ps h.1)

All-of_blocks_of :
    (P : CachedBlock → Type 0) (ps : List PendingBlock)
    → All P (blocks_of ps)
    → All (λ p. P p.cached) ps
All-of_blocks_of P [] h = tt
All-of_blocks_of P (p ∷ ps) h = (h.0, All-of_blocks_of P ps h.1)

-- What holds of the queue holds of the blocks left.
Splits-All :
    (P : CachedBlock → Type 0) (n : ℕ) (ps : List PendingBlock)
    (r : List CachedBlock × List PendingBlock × Option CachedBlock)
    → Splits n ps r
    → All (λ p. P p.cached) ps
    → All (λ p. P p.cached) r.1
Splits-All P n ps r c h =
    All-of_blocks_of P r.1
      (All-append_right P r.0 (blocks_of r.1) (subst (All P) (sym c.order) (All-blocks_of P ps h)))

-- The state after a commit that splits the queue.
committed : ℕ → List CachedBlock × List PendingBlock × Option CachedBlock → Staging → Staging
committed n r s =
    emit (byz_commit r.0 ∷ log_update_bci n ∷ [])
      (record s { bci = n; pending_blocks = r.1; curr_parent_for_pending = r.2 })

committed-IsValid :
    (n : ℕ) (s : Staging) (r : List CachedBlock × List PendingBlock × Option CachedBlock)
    → IsValid s
    → Splits n s.pending_blocks r
    → IsValid (committed n r s)
unfolding committed
committed-IsValid n s r v c = record {
  links = subst (λ o. PendingLinks o r.1) (sym c.same) c.links;
  parent = subst (λ o. number_of o ≡ n) (sym c.same) c.number;
  certified = Splits-All CertifiesEarlier n s.pending_blocks r c v.certified;
}

do_byzantine_commit-committed :
    (n : ℕ) (s : Staging)
    → s.bci < n
    → do_byzantine_commit s.bci n s
      ≡ committed n (pop_committed n s.pending_blocks s.curr_parent_for_pending) s
unfolding do_byzantine_commit committed
do_byzantine_commit-committed n s lt = rw (leb_of_lt n s.bci lt) refl

do_byzantine_commit_noop : (n : ℕ) (s : Staging) → n ≤ s.bci → do_byzantine_commit s.bci n s ≡ s
unfolding do_byzantine_commit
do_byzantine_commit_noop n s le = rw (leb_of_le n s.bci le) refl

pub do_byzantine_commit-IsValid :
    (n : ℕ) (s : Staging) → IsValid s → n ≤ last_n s → IsValid (do_byzantine_commit s.bci n s)
do_byzantine_commit-IsValid n s v hi = elim (le-or-lt n s.bci) [
  | inl le ↦ subst IsValid (sym (do_byzantine_commit_noop n s le)) v
  | inr lt ↦
      subst IsValid (sym (do_byzantine_commit-committed n s lt))
        (committed-IsValid n s _ v (commit_Splits n s v lt hi))
]

pub bci-do_byzantine_commit :
    (n : ℕ) (s : Staging) → (do_byzantine_commit s.bci n s).bci ≡ (if leb n s.bci then s.bci else n)
unfolding do_byzantine_commit
bci-do_byzantine_commit n s = elim (Bool-cases (leb n s.bci)) [
  | inl e ↦ rw e refl
  | inr e ↦ rw e refl
]
