-- ===== src/LogServer/State/Rollback.antt =====
-- A rollback of the log server, above the Byzantine commit index and below it.
use powder_raft.Common.{
  ℕ, ◌+◌, ◌≤◌, ◌<◌, ◌≡◌, false, List, [], ◌∷◌, ◌++◌, arith, length, subst, sym,
}
use powder_raft.Types.{CachedBlock}
use powder_raft.Chain.{Links, up_to, up_to_none}
use powder_raft.LogServer.State.{
  LogServer, last_number, handle_new_block, handle_rollback, rollback_target, parent_mismatch,
}

-- The last number of a chain cut at `n` is `n`, if the chain reaches it.
last_number-up_to :
    (n : ℕ) (b : CachedBlock) (r : List CachedBlock)
    → Links b r
    → b.n ≤ n
    → n ≤ b.n + length r
    → last_number (up_to n (b ∷ r)) ≡ n
last_number-up_to n b [] h lo hi = ground arith
last_number-up_to n b (c ∷ r) h lo hi =
    ground (arith, h.0.number, last_number-up_to n c r h.1, up_to_none n c r h.1)

module _ (s : LogServer) (first : CachedBlock) (rest : List CachedBlock) where
  -- The log is a chain that reaches the number `n`.
  pub record Reaches (n : ℕ) : Type 0 where
    pub shape : s.log ≡ first ∷ rest
    pub links : Links first rest
    pub lower : first.n ≤ n
    pub upper : n ≤ first.n + length rest

  last_number-rollback :
      (n m : ℕ)
      → rollback_target s.bci n ≡ m
      → Reaches m
      → last_number (handle_rollback n s).log ≡ m
  unfolding handle_rollback
  last_number-rollback n m e f =
      subst (λ k. last_number (up_to k s.log) ≡ m) (sym e)
        (subst (λ l. last_number (up_to m l) ≡ m) (sym f.shape)
          (last_number-up_to m first rest f.links f.lower f.upper))

  -- If the log reaches `n`, which is above the Byzantine commit index, a rollback to `n` leaves
  -- `n` as the last number, and the next block `n + 1` is appended if it names the hash of the
  -- new last block.
  pub handle_rollback-reopens :
      (n : ℕ) (b : CachedBlock)
      → s.bci < n
      → Reaches n
      → b.n ≡ n + 1
      → parent_mismatch (handle_rollback n s).log b ≡ false
      → (last_number (handle_rollback n s).log ≡ n)
        × ((handle_new_block b (handle_rollback n s)).log ≡ (handle_rollback n s).log ++ b ∷ [])
  unfolding handle_new_block
  handle_rollback-reopens n b lt f e m =
      let last = last_number-rollback n n (ground arith) f in (last, ground (arith, last, m))

  -- If the log reaches the number right behind the Byzantine commit index, a rollback to the
  -- index or below keeps the block with that number, and whatever block is sent next with that
  -- number is refused.
  pub handle_rollback-keeps_stale :
      (n : ℕ) (b : CachedBlock)
      → n ≤ s.bci
      → Reaches (s.bci + 1)
      → b.n ≡ s.bci + 1
      → (last_number (handle_rollback n s).log ≡ s.bci + 1)
        × (handle_new_block b (handle_rollback n s) ≡ handle_rollback n s)
  unfolding handle_new_block
  handle_rollback-keeps_stale n b le f e =
      let last = last_number-rollback n (s.bci + 1) (ground arith) f in (last, ground (arith, last))
