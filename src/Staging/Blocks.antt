-- ===== src/Staging/Blocks.antt =====
-- `process_block_as_leader` and `process_block_as_follower` of src/consensus/staging/steady_state.rs.
pub mod Order
pub mod Replace
pub mod Fuel
pub mod Repeats
use powder_raft.Common.{
  ℕ, zero, suc, ◌+◌, Bool, true, false, ◌&&◌, ◌||◌, not, List, [], ◌∷◌, ◌++◌, map, ltb, ◌==◌,
  if◌then◌else◌, retain, sub64, suc,
}
use powder_raft.Common.Outcome.{Outcome, done, out_of_fuel, ◌>>=◌}
use powder_raft.Types.{CachedBlock, QuorumCertificate}
use powder_raft.Config.{Config, i_am_leader}
use powder_raft.Crypto.{Crypto}
use powder_raft.Staging.State.{
  Staging, PendingBlock, AppendEntriesStats, emit, without_votes, log_new_block, new_unstable_view,
  update_view, cancel_all_requests, fire_timer,
}
use powder_raft.Staging.Commit.{check_continuity, rollback, do_crash_commit, maybe_byzantine_commit}
use powder_raft.Staging.ViewChange.{maybe_stabilize_view}
use powder_raft.Staging.Votes.{vote_on_last_block_for_self, send_vote_on_last_block_to_leader}

-- All transitions but that from unstable to stable are taken over unchecked.
unfoldable pub follow_stability : AppendEntriesStats → Staging → Staging
follow_stability st s =
    if s.view_is_stable || not st.view_is_stable
    then record s { view_is_stable = st.view_is_stable }
    else s

-- A block of the current view: in an unstable view it replaces what is pending from its number on.
unfoldable pub make_way : CachedBlock → AppendEntriesStats → Staging → Staging
unfolding follow_stability rollback
make_way block st s =
    let s' = follow_stability st s in
    if s'.view_is_stable then s' else rollback (sub64 block.n 1) s'

-- Votes from lower views do not count any more.
abbrev pub clear_votes : List PendingBlock → List PendingBlock
clear_votes = map (λ (p : PendingBlock). record p { replication_set = []; vote_sigs = [] })

abbrev pub clear_all_votes : Staging → Staging
clear_all_votes s = record s { pending_blocks = clear_votes s.pending_blocks }

-- The state in a new view, and the notices about it.
abbrev pub in_new_view : ℕ → ℕ → Staging → Staging
in_new_view view config_num s =
    emit (new_unstable_view view config_num ∷ update_view view config_num ∷ []) (record s {
      view = view;
      ae_seen_in_this_view = 0;
      view_is_stable = false;
      config_num = config_num;
    })

-- The jump to a higher view, as the leader of the old one.
unfoldable pub jump_as_leader : CachedBlock → AppendEntriesStats → Staging → Staging
unfolding rollback
jump_as_leader block st s = clear_all_votes (
    emit (cancel_all_requests ∷ [])
      (rollback (sub64 block.n 1) (in_new_view st.view st.config_num s)))

-- The jump as a follower: the configuration is the block's, and the application is not told.
unfoldable pub jump_as_follower : CachedBlock → AppendEntriesStats → Staging → Staging
jump_as_follower block st s =
    let s' = in_new_view st.view block.config_num s in
    clear_all_votes (
      emit (cancel_all_requests ∷ []) (record s' {
        pending_blocks = retain (λ p. ltb p.n block.n) s'.pending_blocks;
        pending_signatures = retain (λ e. ltb e.0 block.n) s'.pending_signatures;
      }))

-- The block joins the queue.
unfoldable pub push_block : CachedBlock → Bool → Staging → Staging
push_block block final s = emit (log_new_block block ∷ []) (record s {
  ae_seen_in_this_view = s.ae_seen_in_this_view + (if final then 1 else 0);
  pending_blocks = s.pending_blocks ++ without_votes block ∷ [];
})

abbrev pub buffer_ack : ℕ → Staging → Staging
buffer_ack ack s = record s { storage_ack_buffer = s.storage_ack_buffer ++ ack ∷ [] }

unfoldable pub finish_as_leader : Config → Crypto → ℕ → Bool → Staging → Outcome Staging
finish_as_leader cfg crypto ack true s = vote_on_last_block_for_self cfg crypto ack s
finish_as_leader cfg crypto ack false s = done (buffer_ack ack s)

abbrev pub stabilize_unless : Config → Bool → QuorumCertificate → Staging → Outcome Staging
stabilize_unless cfg true qc s = done s
stabilize_unless cfg false qc s = maybe_stabilize_view cfg qc s

-- The certificates in the block, where the view was stable or not when the block came.
unfoldable pub use_block_qcs : Config → Bool → List QuorumCertificate → Staging → Outcome Staging
use_block_qcs cfg was_stable [] s = done s
use_block_qcs cfg was_stable (qc ∷ qcs) s = do
  s' ← stabilize_unless cfg was_stable qc s
  use_block_qcs cfg was_stable qcs (maybe_byzantine_commit cfg qc s')

abbrev pub reply_vote : Config → Crypto → ℕ → Bool → Staging → Outcome Staging
reply_vote cfg crypto ack true s = send_vote_on_last_block_to_leader cfg crypto ack s
reply_vote cfg crypto ack false s = done (buffer_ack ack s)

-- A view change when too many crash commits have no Byzantine commit.
unfoldable pub check_gap : Config → Bool → Staging → Staging
check_gap cfg was_stable s =
    if was_stable
      && ltb cfg.commit_index_gap_soft s.ae_seen_in_this_view
      && ltb (s.bci + cfg.commit_index_gap_hard) s.ci
    then emit (fire_timer ∷ []) s
    else s

unfoldable pub finish_as_follower :
    Config → Crypto → CachedBlock → ℕ → AppendEntriesStats → Bool → Staging → Outcome Staging
unfolding use_block_qcs check_gap do_crash_commit
finish_as_follower cfg crypto block ack st final s = do
  let committed = if final then do_crash_commit s.ci st.ci s else s
  s' ← use_block_qcs cfg s.view_is_stable block.qc committed
  s'' ← reply_vote cfg crypto ack final s'
  done (check_gap cfg s.view_is_stable s'')

-- The block of the current view, as the leader or as a follower.
unfoldable pub accept_block :
    Config → Crypto → Bool → CachedBlock → ℕ → AppendEntriesStats → Bool → Staging → Outcome Staging
unfolding make_way push_block finish_as_leader finish_as_follower
accept_block cfg crypto leads block ack st final s =
    let s' = make_way block st s in
    elim (check_continuity block s') [
      | false ↦ done s'
      | true ↦ elim leads [
        | true ↦ finish_as_leader cfg crypto ack final (push_block block final s')
        | false ↦ finish_as_follower cfg crypto block ack st final (push_block block final s')
      ]
    ]

unfoldable pub jump : Bool → CachedBlock → AppendEntriesStats → Staging → Staging
unfolding jump_as_leader jump_as_follower
jump true = jump_as_leader
jump false = jump_as_follower

-- Both functions, told apart by `leads`; each calls one of them again after a jump.
unfoldable pub process_block :
    ℕ
    → Config
    → Crypto
    → Bool
    → CachedBlock
    → ℕ
    → AppendEntriesStats
    → Bool
    → Staging
    → Outcome Staging
unfolding accept_block jump
process_block zero cfg crypto leads block ack st final s = out_of_fuel
process_block (suc fuel) cfg crypto leads block ack st final s = elim (ltb st.view s.view) [
  | true ↦ done s
  | false ↦ elim (st.view == s.view) [
    | true ↦ accept_block cfg crypto leads block ack st final s
    | false ↦
        let s' = jump leads block st s in
        process_block fuel cfg crypto (i_am_leader cfg s'.view) block ack st final s'
  ]
]
