-- ===== src/Examples/Quorums.antt =====
-- Quorums of the cluster of four.
use powder_raft.Common.{◌≤◌, ◌<◌, ◌&&◌, not, Bool, arith, bytes_eq, sub64}
use powder_raft.Types.{Name}
use powder_raft.Config.{
  crash_commit_threshold, byzantine_commit_threshold, byzantine_fast_path_threshold,
  fast_path_selection_threshold, pacemaker_view_update_threshold, new_view_bcast_threshold,
  validate_or_die,
}
use powder_raft.Config.Quorums.{
  members, validate_or_die-thresholds, byzantine_quorums_meet, fast_quorum_meets_new_view,
}
use powder_raft.Examples.Fixtures.{cluster, node}

abbrev all_but_first : Name → Bool
all_but_first x = not (bytes_eq x (node 1))

abbrev all_but_last : Name → Bool
all_but_last x = not (bytes_eq x (node 4))

abbrev everyone : Name → Bool
everyone x = bytes_eq x x

validate_or_die-thresholds_example :
    (crash_commit_threshold cluster ≤ byzantine_commit_threshold cluster)
    × (byzantine_commit_threshold cluster ≤ byzantine_fast_path_threshold cluster)
    × (fast_path_selection_threshold cluster ≤ byzantine_commit_threshold cluster)
    × (0 < pacemaker_view_update_threshold cluster)
    × (pacemaker_view_update_threshold cluster ≤ new_view_bcast_threshold cluster)
unfolding validate_or_die sub64
validate_or_die-thresholds_example =
    validate_or_die-thresholds cluster (ground arith) (omega arith) (omega arith)

byzantine_quorums_meet_example :
    (pacemaker_view_update_threshold cluster
      ≤ members (λ x. all_but_first x && all_but_last x) cluster.node_list)
    × (0 < members (λ x. all_but_first x && all_but_last x) cluster.node_list)
unfolding validate_or_die sub64 byzantine_commit_threshold
byzantine_quorums_meet_example =
    byzantine_quorums_meet cluster all_but_first all_but_last (ground arith) (omega arith)
      (omega arith) (ground arith) (ground arith)

fast_quorum_meets_new_view_example :
    fast_path_selection_threshold cluster
    ≤ members (λ x. everyone x && all_but_last x) cluster.node_list
unfolding validate_or_die sub64 byzantine_fast_path_threshold new_view_bcast_threshold
fast_quorum_meets_new_view_example =
    fast_quorum_meets_new_view cluster everyone all_but_last (ground arith) (omega arith)
      (omega arith) (ground arith) (ground arith)
