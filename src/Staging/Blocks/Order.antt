-- ===== src/Staging/Blocks/Order.antt =====
-- When a block joins the queue, and the queue stays a chain.
use powder_raft.Common.{
  ◌+◌, ◌<◌, ◌≡◌, refl, sym, subst, Bool, true, List, [], ◌∷◌, ◌++◌, Option, none, some, arith,
  length, All, back, length-map, ap,
}
use powder_raft.Types.{CachedBlock}
use powder_raft.Chain.{Links, Follows, Links-append, end_of, number-end_of}
use powder_raft.Staging.State.{Staging, PendingBlock, blocks_of, without_votes}
use powder_raft.Staging.Invariant.{IsValid, PendingLinks, CertifiesEarlier, number_of, last_n}
use powder_raft.Staging.Commit.{check_continuity, continues, continues_queue}
use powder_raft.Staging.Blocks.{push_block}

-- The last block that staging knows.
abbrev last_block : Option CachedBlock → List PendingBlock → Option CachedBlock
last_block o [] = o
last_block o (p ∷ ps) = some (end_of p.cached (blocks_of ps))

back-blocks :
    (p : PendingBlock) (ps : List PendingBlock)
    → (q : PendingBlock) × (back (p ∷ ps) ≡ some q) × (q.cached ≡ end_of p.cached (blocks_of ps))
back-blocks p [] = (p, refl, refl)
back-blocks p (q ∷ ps) = back-blocks q ps

All-append_one :
    (P : PendingBlock → Type 0) (ps : List PendingBlock) (p : PendingBlock)
    → All P ps
    → P p
    → All P (ps ++ p ∷ [])
All-append_one P [] p h q = (q, tt)
All-append_one P (x ∷ ps) p h q = (h.0, All-append_one P ps p h.1 q)

blocks_of-append :
    (ps : List PendingBlock) (b : CachedBlock)
    → blocks_of (ps ++ without_votes b ∷ []) ≡ blocks_of ps ++ b ∷ []
blocks_of-append [] b = refl
blocks_of-append (p ∷ ps) b = ap (λ bs. p.cached ∷ bs) (blocks_of-append ps b)

-- A block behind the last one that staging knows may follow it.
abbrev MayFollow : Option CachedBlock → List PendingBlock → CachedBlock → Type 0
MayFollow none [] b = b.n ≡ 1
MayFollow (some a) [] b = Follows a b
MayFollow o (p ∷ ps) b = Follows (end_of p.cached (blocks_of ps)) b

PendingLinks-append :
    (o : Option CachedBlock) (ps : List PendingBlock) (b : CachedBlock)
    → PendingLinks o ps
    → MayFollow o ps b
    → PendingLinks o (ps ++ without_votes b ∷ [])
PendingLinks-append none [] b h f = (f, tt)
PendingLinks-append (some a) [] b h f = (f, tt)
PendingLinks-append none (p ∷ ps) b h f = (
  h.0,
  subst (Links p.cached) (sym (blocks_of-append ps b))
      (Links-append p.cached b (blocks_of ps) h.1 f),
)
PendingLinks-append (some a) (p ∷ ps) b h f = (
  h.0,
  subst (Links p.cached) (sym (blocks_of-append ps b))
      (Links-append p.cached b (blocks_of ps) h.1 f),
)

end_number :
    (o : Option CachedBlock) (p : PendingBlock) (ps : List PendingBlock)
    → PendingLinks o (p ∷ ps)
    → (end_of p.cached (blocks_of ps)).n ≡ number_of o + length (p ∷ ps)
end_number none p ps h = omega (
  arith,
  h.0,
  number-end_of p.cached (blocks_of ps) h.1,
  length-map (λ (x : PendingBlock). x.cached) ps,
)
end_number (some a) p ps h = omega (
  arith,
  h.0.number,
  number-end_of p.cached (blocks_of ps) h.1,
  length-map (λ (x : PendingBlock). x.cached) ps,
)

-- The check on a queue, for a block behind all of it.
continues_queue-Follows :
    (first last : PendingBlock) (ps : List PendingBlock) (b : CachedBlock)
    → last.n < b.n
    → continues_queue first last ps b ≡ true
    → Follows last.cached b
continues_queue-Follows first last ps b lt c = record {
  number = ground arith;
  parent = ground arith;
}

check_continuity-queue :
    (s : Staging) (p q : PendingBlock) (ps : List PendingBlock) (b : CachedBlock)
    → s.pending_blocks ≡ p ∷ ps
    → back (p ∷ ps) ≡ some q
    → check_continuity b s ≡ true
    → continues_queue p q (p ∷ ps) b ≡ true
unfolding check_continuity
check_continuity-queue s p q ps b e k c =
    let c' = subst (λ l. check_continuity b (record s { pending_blocks = l }) ≡ true) e c in
    subst
      (λ (o : Option PendingBlock).
        (elim o [
          | none ↦ continues s.curr_parent_for_pending b
          | some last ↦ continues_queue p last (p ∷ ps) b
        ])
        ≡ true)
      k c'

queue-MayFollow :
    (o : Option CachedBlock) (ps : List PendingBlock) (b : CachedBlock) (s : Staging)
    → s.pending_blocks ≡ ps
    → s.curr_parent_for_pending ≡ o
    → PendingLinks o ps
    → number_of o + length ps < b.n
    → check_continuity b s ≡ true
    → MayFollow o ps b
unfolding check_continuity
queue-MayFollow none [] b s e e' h lt c = ground (arith, e, e')
queue-MayFollow (some a) [] b s e e' h lt c = record {
  number = ground (arith, e, e');
  parent = ground (arith, e, e');
}
queue-MayFollow o (p ∷ ps) b s e e' h lt c =
    let (q, k, same) = back-blocks p ps in
    subst (λ x. Follows x b) same
      (continues_queue-Follows p q (p ∷ ps) b
        (omega (arith, lt, end_number o p ps h, ap (λ x. x.n) same))
        (check_continuity-queue s p q ps b e k c))

-- From a valid state, a block that passes the continuity check, is behind all that staging
-- knows, and has certificates about earlier blocks only, joins the queue and leaves the state
-- valid.
pub push_block-IsValid :
    (b : CachedBlock) (final : Bool) (s : Staging)
    → IsValid s
    → CertifiesEarlier b
    → check_continuity b s ≡ true
    → last_n s < b.n
    → IsValid (push_block b final s)
unfolding push_block
push_block-IsValid b final s v q c lt = record {
  links = PendingLinks-append s.curr_parent_for_pending s.pending_blocks b v.links (
      queue-MayFollow s.curr_parent_for_pending s.pending_blocks b s refl refl v.links
        (omega (arith, v.parent)) c);
  parent = v.parent;
  certified =
      All-append_one (λ p. CertifiesEarlier p.cached) s.pending_blocks (without_votes b) v.certified
        q;
}
