-- ===== src/Config.antt =====
-- The part of src/config/mod.rs that consensus reads, and the vote thresholds that staging.rs,
-- fork_choice.rs and pacemaker.rs compute from it (features `round_robin_leader`, `platforms`).
pub mod Quorums
use powder_raft.Common.{
  ℕ, ◌+◌, ◌-◌, ◌*◌, ◌/◌, ◌%◌, Bool, false, List, Option, length, get_elem?, leb, sub64, bytes_eq,
  map_or,
}
use powder_raft.Types.{Name}

pub record Config : Type 0 where
  -- `net_config.name`
  pub name : Name
  -- `consensus_config`
  pub node_list : List Name
  pub liveness_u : ℕ
  pub commit_index_gap_soft : ℕ
  pub commit_index_gap_hard : ℕ
  pub signature_max_delay_blocks : ℕ

-- `none` stands for the panic on an empty `node_list`.
unfoldable pub get_leader_for_view : Config → ℕ → Option Name
get_leader_for_view c view = get_elem? c.node_list (sub64 view 1 % length c.node_list)

unfoldable pub i_am_leader : Config → ℕ → Bool
i_am_leader c view = map_or false (λ leader. bytes_eq leader c.name) (get_leader_for_view c view)

unfoldable pub crash_commit_threshold : Config → ℕ
crash_commit_threshold c = length c.node_list / 2 + 1

-- The code panics if there are fewer nodes than `liveness_u`, so `-` is exact.
unfoldable pub byzantine_liveness_threshold : Config → ℕ
byzantine_liveness_threshold c = length c.node_list - c.liveness_u

unfoldable pub byzantine_commit_threshold : Config → ℕ
unfolding byzantine_liveness_threshold
byzantine_commit_threshold c = byzantine_liveness_threshold c

unfoldable pub byzantine_fast_path_threshold : Config → ℕ
byzantine_fast_path_threshold c = length c.node_list

unfoldable pub fast_path_selection_threshold : Config → ℕ
fast_path_selection_threshold c = c.liveness_u + 1

unfoldable pub pacemaker_view_update_threshold : Config → ℕ
pacemaker_view_update_threshold c = sub64 (length c.node_list) (2 * c.liveness_u)

unfoldable pub new_view_bcast_threshold : Config → ℕ
new_view_bcast_threshold c = sub64 (length c.node_list) c.liveness_u

-- Whether `validate_or_die` lets the configuration pass. Only `AtomicConfig::set_checked` calls it;
-- start-up does not.
unfoldable pub validate_or_die : Config → Bool
validate_or_die c =
    let n = length c.node_list in let majority = n / 2 + 1 in leb c.liveness_u (sub64 n majority)
