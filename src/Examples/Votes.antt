-- ===== src/Examples/Votes.antt =====
-- Votes on three pending blocks, and what the leader makes of them.
use powder_raft.Common.{ℕ, [], ◌∷◌, map, refl, arith, ◌≡◌, ◌≤◌, All, none, some, ◌⊎◌, List}
use powder_raft.Common.Outcome.{done}
use powder_raft.ForkChoice.{ForkStat}
use powder_raft.Config.{byzantine_commit_threshold, byzantine_fast_path_threshold}
use powder_raft.Staging.State.{Staging, PendingBlock, without_votes}
use powder_raft.Staging.Votes.{new_qcs, mark, vote_blocks}
use powder_raft.Staging.Votes.Certificates.{Stands, IsDue, IsServed, new_qcs-Quorum}
use powder_raft.Staging.Votes.Replication.{Pairwise, IsCounted, vote_blocks-IsCounted}
use powder_raft.Staging.NewView.{check_byz_commit_invariant}
use powder_raft.Staging.NewView.Attach.{Attaches, check_byz_commit_invariant-Attaches}
use powder_raft.Examples.Fixtures.{block, cluster, node}
use powder_raft.Examples.Stagings.{staging, staging-IsValid}
use powder_raft.Types.{SignatureEntry}

-- Three nodes have block 2, and all of them signed it.
abbrev voted : PendingBlock
voted = record (without_votes (block 2)) {
  replication_set = node 1 ∷ node 2 ∷ node 3 ∷ [];
  vote_sigs =
      (node 1, record { n = 2; sig = [] })
      ∷ (node 2, record { n = 2; sig = [] })
      ∷ (node 3, record { n = 2; sig = [] })
      ∷ [];
}

abbrev with_votes : Staging
with_votes = record staging { ci = 1; pending_blocks = voted ∷ without_votes (block 3) ∷ [] }

-- A fork that begins behind pending block 2.
abbrev fork : ForkStat
fork = record {
  block_hashes = (3 ∷ []) ∷ [];
  fork_last_n = 3;
  first_n = 3;
  first_parent = 2 ∷ [];
  last_qc = none;
  last_view = 1;
  last_config_num = 1;
}

new_qcs-Quorum_example :
    All (Stands 1 (byzantine_commit_threshold cluster) (voted ∷ [])) (
      new_qcs 1
        (byzantine_commit_threshold cluster)
        (byzantine_fast_path_threshold cluster)
        (voted ∷ []))
    × All
        (λ p.
          IsDue (byzantine_commit_threshold cluster) (byzantine_fast_path_threshold cluster) p
          → IsServed
              (new_qcs 1
                (byzantine_commit_threshold cluster)
                (byzantine_fast_path_threshold cluster)
                (voted ∷ []))
              p)
        (voted ∷ [])
    × (new_qcs 1 (byzantine_commit_threshold cluster) (byzantine_fast_path_threshold cluster) (
          map
            (mark (byzantine_commit_threshold cluster) (byzantine_fast_path_threshold cluster))
            (voted ∷ []))
        ≡ [])
new_qcs-Quorum_example = new_qcs-Quorum cluster 1 (voted ∷ [])

abbrev vote_sigs : List SignatureEntry
vote_sigs = record { n = 2; sig = 5 ∷ [] } ∷ record { n = 3; sig = 6 ∷ [] } ∷ []

vote_blocks-IsCounted_example :
    Pairwise
      (IsCounted (node 2) 3 vote_sigs)
      staging.pending_blocks
      (vote_blocks (node 2) 3 vote_sigs staging.pending_blocks)
vote_blocks-IsCounted_example =
    vote_blocks-IsCounted (node 2) 3 vote_sigs staging.pending_blocks (tt, (tt, (tt, tt)))
      (((λ h. ground arith), ((λ h. ground arith), tt)), (((λ h. ground arith), tt), (tt, tt)))

check_byz_commit_invariant-Attaches_example :
    (check_byz_commit_invariant fork staging ≡ done none)
    ⊎ ((k : ℕ) × (check_byz_commit_invariant fork staging ≡ done (some k))
        × (1 ≤ k)
        × Attaches 1 (block 1) staging.pending_blocks fork k)
check_byz_commit_invariant-Attaches_example =
    check_byz_commit_invariant-Attaches fork staging (block 1) staging-IsValid (omega arith) refl
