-- ===== src/Staging/Blocks/Repeats.antt =====
-- A block that is already pending: in a stable view nothing is rolled back before it is added again.
use powder_raft.Common.{
  ℕ, ◌+◌, ◌≤◌, ◌<◌, ◌≡◌, refl, Bool, true, List, [], ◌∷◌, ◌++◌, Option, none, some, arith, length,
  In, inl, inr, any, back, bytes_eq, ◌&&◌, ◌==◌, ap, subst, sym,
}
use powder_raft.Staging.State.{Staging, PendingBlock, without_votes}
use powder_raft.Staging.Invariant.{IsValid, NumberedFrom, IsValid-NumberedFrom}
use powder_raft.Staging.Commit.{check_continuity, continues, continues_queue}
use powder_raft.Staging.Blocks.{push_block}

bytes_eq_self : (x : List ℕ) → bytes_eq x x ≡ true
bytes_eq_self x = ground arith

any-In :
    (p : PendingBlock) (ps : List PendingBlock)
    → In p ps
    → any (λ q. q.n == p.n && bytes_eq q.block_hash p.block_hash) ps ≡ true
any-In p [] m = elim m [ ]
any-In p (q ∷ ps) (inl e) =
    subst
      (λ (x : PendingBlock).
        any (λ q. q.n == p.n && bytes_eq q.block_hash p.block_hash) (x ∷ ps) ≡ true)
      e (ground (arith, bytes_eq_self p.block_hash))
any-In p (q ∷ ps) (inr m) = ground (arith, any-In p ps m)

-- Where a pending block stands in the numbers.
number-In :
    (k : ℕ) (p : PendingBlock) (ps : List PendingBlock)
    → NumberedFrom k ps
    → In p ps
    → (k < p.n) × (p.n ≤ k + length ps)
number-In k p [] h m = elim m [ ]
number-In k p (q ∷ ps) h (inl e) =
    let same = ap (λ (x : PendingBlock). x.n) e in
    (omega (arith, h.0, same), omega (arith, h.0, same))
number-In k p (q ∷ ps) h (inr m) =
    let (lo, hi) = number-In (k + 1) p ps h.1 m in (omega arith, omega arith)

number-back :
    (k : ℕ) (p : PendingBlock) (ps : List PendingBlock)
    → NumberedFrom k (p ∷ ps)
    → (q : PendingBlock) × (back (p ∷ ps) ≡ some q) × (q.n ≡ k + length (p ∷ ps))
number-back k p [] h = (p, refl, h.0)
number-back k p (q ∷ ps) h = let (r, e, n) = number-back (k + 1) q ps h.1 in (r, e, omega arith)

NumberedFrom-append :
    (k : ℕ) (ps : List PendingBlock) (p : PendingBlock)
    → NumberedFrom k (ps ++ p ∷ [])
    → p.n ≡ k + length ps + 1
NumberedFrom-append k [] p h = omega (arith, h.0)
NumberedFrom-append k (q ∷ ps) p h = omega (arith, NumberedFrom-append (k + 1) ps p h.1)

continues_queue-repeats :
    (k : ℕ) (p first last : PendingBlock) (ps : List PendingBlock)
    → NumberedFrom k (first ∷ ps)
    → last.n ≡ k + length (first ∷ ps)
    → In p (first ∷ ps)
    → continues_queue first last (first ∷ ps) p.cached ≡ true
continues_queue-repeats k p first last ps h e m =
    let (lo, hi) = number-In k p (first ∷ ps) h m in ground (arith, any-In p (first ∷ ps) m, h.0)

queue-repeats :
    (k : ℕ) (p : PendingBlock) (ps : List PendingBlock) (s : Staging)
    → NumberedFrom k ps
    → In p ps
    → check_continuity p.cached (record s { pending_blocks = ps }) ≡ true
unfolding check_continuity
queue-repeats k p [] s h m = elim m [ ]
queue-repeats k p (first ∷ ps) s h m =
    let (last, e, n) = number-back k first ps h in
    subst
      (λ (o : Option PendingBlock).
        (elim o [
          | none ↦ continues s.curr_parent_for_pending p.cached
          | some q ↦ continues_queue first q (first ∷ ps) p.cached
        ])
        ≡ true)
      (sym e) (continues_queue-repeats k p first last ps h n m)

-- The continuity check lets every block pass that is already pending, and the queue with such a
-- block added once more is no chain from the Byzantine commit index on.
pub check_continuity-repeats :
    (p : PendingBlock) (final : Bool) (s : Staging)
    → IsValid s
    → In p s.pending_blocks
    → (check_continuity p.cached s ≡ true) × (¬ (IsValid (push_block p.cached final s)))
unfolding push_block
check_continuity-repeats p final s v m = (
  queue-repeats s.bci p s.pending_blocks s (IsValid-NumberedFrom s v) m,
  λ v'.
      let (lo, hi) = number-In s.bci p s.pending_blocks (IsValid-NumberedFrom s v) m in
      absurd (
        omega (
          arith,
          NumberedFrom-append s.bci s.pending_blocks (without_votes p.cached)
              (IsValid-NumberedFrom (push_block p.cached final s) v'),
        )),
)
