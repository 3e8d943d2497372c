-- ===== src/Examples/Stagings.antt =====
-- A staging area with three pending blocks, of which the last carries a certificate for the first.
use powder_raft.Common.{[], ◌∷◌, some, refl, arith, ◌≤◌, true, none}
use powder_raft.Staging.State.{Staging, without_votes}
use powder_raft.Staging.Invariant.{IsValid}
use powder_raft.Staging.Commit.{maybe_byzantine_commit}
use powder_raft.Staging.Commit.TwoHop.{
  Reason, maybe_byzantine_commit-IsValid, maybe_byzantine_commit-Reason,
}
use powder_raft.Examples.Fixtures.{block, certified_block, qc_for, cluster}

abbrev pub staging : Staging
staging = record {
  ci = 3;
  bci = 1;
  view = 1;
  view_is_stable = true;
  config_num = 1;
  last_qc = none;
  curr_parent_for_pending = some (block 1);
  pending_blocks =
      without_votes (block 2)
      ∷ without_votes (block 3)
      ∷ without_votes (certified_block 4 (qc_for 2 ∷ []))
      ∷ [];
  pending_signatures = [];
  vc_retry_num = 0;
  storage_ack_buffer = [];
  ae_seen_in_this_view = 0;
  sent = [];
}

pub staging-IsValid : IsValid staging
staging-IsValid = record {
  links = (
    record { number = refl; parent = refl },
    (record { number = refl; parent = refl }, (record { number = refl; parent = refl }, tt)),
  );
  parent = refl;
  certified = (tt, (tt, ((omega arith, tt), tt)));
}

maybe_byzantine_commit-IsValid_example : IsValid (maybe_byzantine_commit cluster (qc_for 4) staging)
maybe_byzantine_commit-IsValid_example =
    maybe_byzantine_commit-IsValid cluster (qc_for 4) staging staging-IsValid (omega arith)

maybe_byzantine_commit-Reason_example :
    (1 ≤ (maybe_byzantine_commit cluster (qc_for 4) staging).bci)
    × Reason cluster (qc_for 4) staging (maybe_byzantine_commit cluster (qc_for 4) staging).bci
maybe_byzantine_commit-Reason_example = maybe_byzantine_commit-Reason cluster (qc_for 4) staging
