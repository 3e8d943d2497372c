-- ===== src/Staging/Commit/Pop.antt =====
-- What the loop of `do_byzantine_commit` takes off the pending queue.
use powder_raft.Common.{
  ℕ, ◌+◌, ◌≤◌, ◌<◌, ◌≡◌, refl, ap, List, [], ◌∷◌, ◌++◌, Option, some, arith, length, All, inl, inr,
  subst, sym, le-or-lt,
}
use powder_raft.Types.{CachedBlock}
use powder_raft.Chain.{Links}
use powder_raft.Staging.State.{PendingBlock, blocks_of}
use powder_raft.Staging.Commit.{pop_committed}

-- Nothing is popped above the index.
pop_stops :
    (n : ℕ) (b : CachedBlock) (ps : List PendingBlock) (parent : Option CachedBlock)
    → Links b (blocks_of ps)
    → n ≤ b.n
    → pop_committed n ps parent ≡ ([], ps, parent)
unfolding pop_committed
pop_stops n b [] parent h le = refl
pop_stops n b (p ∷ ps) parent h le = ground (arith, h.0.number)

-- A commit at `n` splits the queue: the popped blocks are its first ones, up to block `n`; those
-- left stand in a chain behind block `n`, which becomes the parent.
pub record Splits (n : ℕ) (ps : List PendingBlock)
    (r : List CachedBlock × List PendingBlock × Option CachedBlock) : Type 0 where
  pub parent : CachedBlock
  pub same : r.2 ≡ some parent
  pub number : parent.n ≡ n
  pub order : r.0 ++ blocks_of r.1 ≡ blocks_of ps
  pub links : Links parent (blocks_of r.1)
  pub upper : All (λ (b : CachedBlock). b.n ≤ n) r.0

pop_at :
    (n : ℕ) (p : PendingBlock) (ps : List PendingBlock) (parent : Option CachedBlock)
    → Links p.cached (blocks_of ps)
    → p.n ≡ n
    → pop_committed n (p ∷ ps) parent ≡ (p.cached ∷ [], ps, some p.cached)
unfolding pop_committed
pop_at n p ps parent h e = ground (arith, pop_stops n p.cached ps (some p.cached) h)

pop_past :
    (n : ℕ) (p : PendingBlock) (ps : List PendingBlock) (parent : Option CachedBlock)
    → p.n < n
    → pop_committed n (p ∷ ps) parent ≡ (
      p.cached ∷ (pop_committed n ps parent).0,
      (pop_committed n ps parent).1,
      (pop_committed n ps parent).2,
    )
unfolding pop_committed
pop_past n p ps parent lt = ground arith

Splits-at :
    (n : ℕ) (p : PendingBlock) (ps : List PendingBlock) (parent : Option CachedBlock)
    → Links p.cached (blocks_of ps)
    → p.n ≡ n
    → Splits n (p ∷ ps) (pop_committed n (p ∷ ps) parent)
Splits-at n p ps parent h e = subst (Splits n (p ∷ ps)) (sym (pop_at n p ps parent h e)) (record {
  parent = p.cached;
  same = refl;
  number = e;
  order = refl;
  links = h;
  upper = omega arith;
})

pub pop-Splits :
    (n : ℕ) (p : PendingBlock) (ps : List PendingBlock) (parent : Option CachedBlock)
    → Links p.cached (blocks_of ps)
    → p.n ≤ n
    → n ≤ p.n + length ps
    → Splits n (p ∷ ps) (pop_committed n (p ∷ ps) parent)
pop-Splits n p [] parent h lo hi = Splits-at n p [] parent h (omega arith)
pop-Splits n p (q ∷ qs) parent h lo hi = elim (le-or-lt n p.n) [
  | inl le ↦ Splits-at n p (q ∷ qs) parent h (omega arith)
  | inr lt ↦
      let r =
        pop-Splits n q qs parent h.1 (omega (arith, h.0.number)) (omega (arith, h.0.number)) in
      subst (Splits n (p ∷ q ∷ qs)) (sym (pop_past n p (q ∷ qs) parent lt)) (record {
        parent = r.parent;
        same = r.same;
        number = r.number;
        order = ap (◌∷◌ p.cached) r.order;
        links = r.links;
        upper = (lo, r.upper);
      })
]
