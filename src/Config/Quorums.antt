-- ===== src/Config/Quorums.antt =====
-- Quorums meet: the reason for the thresholds.
use powder_raft.Common.{
  ℕ, ◌+◌, ◌≤◌, ◌<◌, ◌≡◌, Bool, true, ◌&&◌, List, [], ◌∷◌, length, retain, sub64, arith, u64_mod,
}
use powder_raft.Types.{Name}
use powder_raft.Config.{
  Config, crash_commit_threshold, byzantine_commit_threshold, byzantine_fast_path_threshold,
  fast_path_selection_threshold, pacemaker_view_update_threshold, new_view_bcast_threshold,
  validate_or_die,
}

-- How many nodes of a configuration belong to a set.
abbrev pub members : (Name → Bool) → List Name → ℕ
members p nodes = length (retain p nodes)

-- Two sets of nodes overlap by what they have in excess of all nodes.
members-and :
    (p q : Name → Bool) (nodes : List Name)
    → members p nodes + members q nodes ≤ length nodes + members (λ x. p x && q x) nodes
members-and p q [] = omega arith
members-and p q (x ∷ xs) = ground (arith, members-and p q xs)

-- If `validate_or_die` lets a configuration pass and it has a node, then the crash commit threshold
-- is at most the Byzantine one, that is at most the fast path one, the selection threshold is at most the
-- Byzantine one, and the pacemaker's threshold is positive and at most the new view one.
pub validate_or_die-thresholds :
    (c : Config)
    → validate_or_die c ≡ true
    → 0 < length c.node_list
    → length c.node_list < u64_mod
    → (crash_commit_threshold c ≤ byzantine_commit_threshold c)
      × (byzantine_commit_threshold c ≤ byzantine_fast_path_threshold c)
      × (fast_path_selection_threshold c ≤ byzantine_commit_threshold c)
      × (0 < pacemaker_view_update_threshold c)
      × (pacemaker_view_update_threshold c ≤ new_view_bcast_threshold c)
unfolding validate_or_die crash_commit_threshold byzantine_commit_threshold
    byzantine_fast_path_threshold fast_path_selection_threshold pacemaker_view_update_threshold
    new_view_bcast_threshold sub64
validate_or_die-thresholds c v p w = ground arith

module _ (c : Config) (p q : Name → Bool) where
  -- Two sets of nodes that reach the crash commit threshold share a node.
  pub crash_quorums_meet :
      crash_commit_threshold c ≤ members p c.node_list
      → crash_commit_threshold c ≤ members q c.node_list
      → 0 < members (λ x. p x && q x) c.node_list
  unfolding crash_commit_threshold
  crash_quorums_meet h k = omega (arith, members-and p q c.node_list)

  -- If `validate_or_die` lets a configuration pass and it has a node, then two sets that reach the
  -- Byzantine threshold share a node, and as many as make the pacemaker change views.
  pub byzantine_quorums_meet :
      validate_or_die c ≡ true
      → 0 < length c.node_list
      → length c.node_list < u64_mod
      → byzantine_commit_threshold c ≤ members p c.node_list
      → byzantine_commit_threshold c ≤ members q c.node_list
      → (pacemaker_view_update_threshold c ≤ members (λ x. p x && q x) c.node_list)
        × (0 < members (λ x. p x && q x) c.node_list)
  unfolding validate_or_die byzantine_commit_threshold pacemaker_view_update_threshold sub64
  byzantine_quorums_meet v n w h k = ground (arith, members-and p q c.node_list)

  -- If `validate_or_die` lets a configuration pass and it has a node, then a set that reaches the
  -- fast path threshold and one that reaches the new view threshold share at least
  -- `fast_path_selection_threshold` nodes.
  pub fast_quorum_meets_new_view :
      validate_or_die c ≡ true
      → 0 < length c.node_list
      → length c.node_list < u64_mod
      → byzantine_fast_path_threshold c ≤ members p c.node_list
      → new_view_bcast_threshold c ≤ members q c.node_list
      → fast_path_selection_threshold c ≤ members (λ x. p x && q x) c.node_list
  unfolding validate_or_die byzantine_fast_path_threshold new_view_bcast_threshold
      fast_path_selection_threshold sub64
  fast_quorum_meets_new_view v n w h k = ground (arith, members-and p q c.node_list)
