-- ===== src/Staging/ViewChange.antt =====
-- src/consensus/staging/view_change.rs, and `vc_to_stats` of fork_choice.rs.
use powder_raft.Common.{
  ℕ, ◌+◌, Bool, true, false, ◌||◌, not, List, [], ◌∷◌, ◌++◌, Option, none, some, map, leb, ◌==◌,
  if◌then◌else◌, bytes_eq, retain, back, map_or,
}
use powder_raft.Common.Outcome.{Outcome, done, panicked}
use powder_raft.Types.{
  CachedBlock, QuorumCertificate, HalfSerializedBlock, half_serialized, ViewChange, Name,
}
use powder_raft.Config.{Config, get_leader_for_view, i_am_leader}
use powder_raft.Crypto.{Crypto}
use powder_raft.Staging.State.{
  Staging, PendingBlock, new_unstable_view, view_stabilised, update_view, make_leader,
  cancel_all_requests, stop_cancelling, my_view_jumped, broadcast_view_change, emit,
}

-- The number of the last block, committed or pending.
abbrev pub fork_last : Option CachedBlock → List PendingBlock → ℕ
fork_last parent pending = map_or (map_or 0 (λ b. b.n) parent) (λ p. p.n) (back pending)

-- The fork that a node reports: the last committed block, and all that are pending.
abbrev pub my_fork : Option CachedBlock → List PendingBlock → List HalfSerializedBlock
my_fork parent pending =
    map_or [] (λ b. half_serialized b ∷ []) parent ++ map (λ p. half_serialized p.cached) pending

-- The name under `get_leader_for_view` and the nodes a message is sent to.
abbrev pub everyone_except_me : Config → List Name
everyone_except_me cfg = retain (λ name. not (bytes_eq name cfg.name)) cfg.node_list

module _ (cfg : Config) (crypto : Crypto) where
  unfoldable pub create_my_vc_msg : Staging → ViewChange
  create_my_vc_msg s = crypto.prepare_vc (record {
    view = s.view;
    config_num = s.config_num;
    fork = some (my_fork s.curr_parent_for_pending s.pending_blocks);
    fork_last_qc = s.last_qc;
    fork_last_n = fork_last s.curr_parent_for_pending s.pending_blocks;
    fork_sig = [];
  })

  -- `update_view`
  unfoldable pub enter_view : ℕ → ℕ → Staging → Staging
  unfolding create_my_vc_msg
  enter_view view_num config_num s =
      let s' = record s { view = view_num; config_num = config_num; view_is_stable = false } in
      let vc = create_my_vc_msg s' in
      emit
        (new_unstable_view view_num config_num
          ∷ make_leader false (get_leader_for_view cfg view_num)
          ∷ cancel_all_requests
          ∷ update_view view_num config_num
          ∷ my_view_jumped view_num config_num vc
          ∷ broadcast_view_change (everyone_except_me cfg) vc
          ∷ [])
        (record s' { ae_seen_in_this_view = 0 })

  unfoldable pub maybe_update_view : ℕ → ℕ → Staging → Staging
  unfolding enter_view
  maybe_update_view view_num config_num s =
      if leb view_num s.view then s else enter_view view_num config_num s

  -- `enough` is the pacemaker's answer to `QueryEnoughVCMsg`.
  unfoldable pub handle_view_change_timer_tick : Bool → Staging → Staging
  unfolding maybe_update_view
  handle_view_change_timer_tick enough s =
      if s.view == 0 || s.view_is_stable
      then maybe_update_view (s.view + 1) s.config_num s
      else if not enough
      then s
      else if leb 100 s.vc_retry_num
      then record (maybe_update_view (s.view + 1) s.config_num s) { vc_retry_num = 0 }
      else record s { vc_retry_num = s.vc_retry_num + 1 }

-- `maybe_stabilize_view`: it reads the last pending block first, and panics if there is none.
unfoldable pub maybe_stabilize_view : Config → QuorumCertificate → Staging → Outcome Staging
maybe_stabilize_view cfg qc s = elim (back s.pending_blocks) [
  | none ↦ panicked
  | some _ ↦ done (
      if not (qc.view == s.view)
      then s
      else emit
          (view_stabilised s.view s.config_num
            ∷ make_leader (i_am_leader cfg s.view) (get_leader_for_view cfg s.view)
            ∷ stop_cancelling
            ∷ [])
          (record s { view_is_stable = true }))
]
