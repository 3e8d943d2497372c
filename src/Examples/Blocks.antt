-- ===== src/Examples/Blocks.antt =====
-- A block that comes to a staging area with three pending blocks.
use powder_raft.Common.{
  ℕ, refl, arith, ◌≡◌, ◌<◌, true, false, some, Bytes-discrete, ◌⊎◌, sub64, inl, inr,
}
use powder_raft.Common.Outcome.{done, IfDone}
use powder_raft.Crypto.{Crypto}
use powder_raft.Config.{i_am_leader}
use powder_raft.Staging.State.{AppendEntriesStats, without_votes}
use powder_raft.Staging.Invariant.{IsValid}
use powder_raft.Staging.Commit.{check_continuity, rollback}
use powder_raft.Staging.Blocks.{
  process_block, accept_block, jump, push_block, make_way, follow_stability,
}
use powder_raft.Staging.Blocks.Order.{push_block-IsValid}
use powder_raft.Staging.Blocks.Replace.{make_way-IsValid}
use powder_raft.Staging.Blocks.Repeats.{check_continuity-repeats}
use powder_raft.Staging.Blocks.Fuel.{process_block-Ends}
use powder_raft.Staging.Worker
use powder_raft.Staging.Worker.{worker}
use powder_raft.Staging.Worker.Advance.{Advances}
use powder_raft.Staging.Worker.Progress.{worker-Advances}
use powder_raft.Examples.Fixtures.{block, cluster, node}
use powder_raft.Examples.Stagings.{staging, staging-IsValid}

-- Services that accept everything.
abbrev pub crypto : Crypto
crypto = record {
  digest = λ bytes. bytes;
  sign = λ hash. hash;
  verify = λ hash name sig. true;
  prepare_vc = λ vc. vc;
  verify_block_ser = λ len ser. some ser;
}

abbrev stats : ℕ → AppendEntriesStats
stats v = record { view = v; view_is_stable = false; config_num = 1; sender = node 2; ci = 3 }

push_block-IsValid_example : IsValid (push_block (block 5) true staging)
unfolding check_continuity Bytes-discrete
push_block-IsValid_example =
    push_block-IsValid (block 5) true staging staging-IsValid tt refl (omega arith)

make_way-IsValid_example :
    IsValid (push_block (block 3) true (make_way (block 3) (stats 1) staging))
unfolding check_continuity make_way follow_stability rollback Bytes-discrete sub64
make_way-IsValid_example =
    make_way-IsValid (block 3) (stats 1) true staging staging-IsValid tt (omega arith) (omega arith)
      refl refl

process_block-Ends_example :
    ((2 < 1)
      × (process_block 2 cluster crypto true (block 3) 3 (stats 2) true staging ≡ done staging))
    ⊎ ((((stats 2).view ≡ staging.view)
          × (process_block 2 cluster crypto true (block 3) 3 (stats 2) true staging
              ≡ accept_block cluster crypto true (block 3) 3 (stats 2) true staging))
        ⊎ ((staging.view < (stats 2).view)
            × (process_block 2 cluster crypto true (block 3) 3 (stats 2) true staging
                ≡ accept_block cluster crypto
                    (i_am_leader cluster (jump true (block 3) (stats 2) staging).view)
                    (block 3)
                    3
                    (stats 2)
                    true
                    (jump true (block 3) (stats 2) staging))))
process_block-Ends_example =
    process_block-Ends cluster crypto (block 3) 3 (stats 2) true 0 true staging

worker-Advances_example :
    IfDone
      (Advances staging)
      (worker cluster crypto (Worker.block (block 3) 3 (stats 1) true) staging)
worker-Advances_example =
    worker-Advances cluster crypto (Worker.block (block 3) 3 (stats 1) true) staging

check_continuity-repeats_example :
    (check_continuity (block 3) staging ≡ true) × (¬ (IsValid (push_block (block 3) true staging)))
check_continuity-repeats_example =
    check_continuity-repeats (without_votes (block 3)) true staging staging-IsValid (inr (inl refl))
