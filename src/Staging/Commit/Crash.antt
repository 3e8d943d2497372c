-- ===== src/Staging/Commit/Crash.antt =====
-- Crash commits: the index grows only to blocks with enough replicas.
use powder_raft.Common.{ℕ, ◌≤◌, ◌<◌, ◌≡◌, List, [], ◌∷◌, ◌++◌, length, In, ◌⊎◌, All, ◌+◌, ◌-◌, ◌/◌}
use powder_raft.Config.{Config}
use powder_raft.Staging.State.{Staging, PendingBlock, update_ci, crash_commit}
use powder_raft.Types.{CachedBlock}

-- A pending block with this number is on so many nodes.
pub record Replicated (thresh n : ℕ) (ps : List PendingBlock) : Type 0 where
  pub block : PendingBlock
  pub pending : In block ps
  pub number : block.n ≡ n
  pub replicas : thresh ≤ length block.replication_set

-- The loop either leaves the index alone, or raises it to a block with enough replicas.
abbrev Raised : ℕ → ℕ → ℕ → List PendingBlock → Type 0
Raised thresh ci n ps = (n ≡ ci) ⊎ ((ci < n) × Replicated thresh n ps)

-- No pending block above `n` has enough replicas.
abbrev pub IsLast : ℕ → ℕ → List PendingBlock → Type 0
IsLast thresh n = All (λ p. n < p.n → length p.replication_set < thresh)

-- The cached blocks of those pending blocks whose numbers are above `lo` and at most `hi`.
pub data IsBetween (lo hi : ℕ) : List PendingBlock → List CachedBlock → Type 0 where
  at_end : IsBetween lo hi [] []
  taken :
      {p : PendingBlock} {ps : List PendingBlock} {bs : List CachedBlock}
      → lo < p.n
      → p.n ≤ hi
      → IsBetween lo hi ps bs
      → IsBetween lo hi (p ∷ ps) (p.cached ∷ bs)
  passed :
      {p : PendingBlock} {ps : List PendingBlock} {bs : List CachedBlock}
      → (p.n ≤ lo) ⊎ (hi < p.n)
      → IsBetween lo hi ps bs
      → IsBetween lo hi (p ∷ ps) bs

-- A majority of the nodes, or all but `liveness_u` where the index is more than the soft gap ahead.
pub record IsThreshold (cfg : Config) (s : Staging) (thresh : ℕ) : Type 0 where
  pub near : s.ci ≤ s.bci + cfg.commit_index_gap_soft → thresh ≡ length cfg.node_list / 2 + 1
  pub far :
      s.bci + cfg.commit_index_gap_soft < s.ci → thresh ≡ length cfg.node_list - cfg.liveness_u

-- What a crash commit does with a threshold: the index stays, or rises to a replicated block.
pub data Crashes (thresh : ℕ) (s : Staging) : Staging → Type 0 where
  stays : IsLast thresh s.ci s.pending_blocks → Crashes thresh s s
  rises :
      (n : ℕ) (bs : List CachedBlock)
      → s.ci < n
      → Replicated thresh n s.pending_blocks
      → IsLast thresh n s.pending_blocks
      → IsBetween s.ci n s.pending_blocks bs
      → Crashes thresh s (record s { ci = n; sent = s.sent ++ update_ci n ∷ crash_commit bs ∷ [] })
