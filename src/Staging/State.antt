-- ===== src/Staging/State.antt =====
-- The state of `Staging` (src/consensus/staging/mod.rs) and the commands that it sends.
use powder_raft.Common.{ℕ, Bool, List, [], ◌++◌, Option, none, false, Bytes, map, true}
use powder_raft.Types.{
  CachedBlock, QuorumCertificate, SignatureEntry, Name, Vote, ViewChange, HalfSerializedBlock,
  ForkValidation, Sig, proposer_sig,
}

-- `CachedBlockWithVotes`.
pub record PendingBlock : Type 0 where
  pub cached : CachedBlock
  pub open cached use *
  pub vote_sigs : List (Name × SignatureEntry)
  pub replication_set : List Name
  pub qc_is_proposed : Bool
  pub fast_qc_is_proposed : Bool

-- What staging sends to the other components and to other nodes.
pub data Command : Type 0 where
  -- to the block broadcaster
  update_ci : ℕ → Command
  next_ae_fork_prefix : List HalfSerializedBlock → Command
  -- to the application
  crash_commit : List CachedBlock → Command
  byz_commit : List CachedBlock → Command
  app_rollback : ℕ → Command
  -- to the log server
  log_new_block : CachedBlock → Command
  log_rollback : ℕ → Command
  log_update_bci : ℕ → Command
  -- to the block sequencer
  new_unstable_view : ℕ → ℕ → Command
  view_stabilised : ℕ → ℕ → Command
  new_view_message : ℕ → ℕ → List ForkValidation → Bytes → ℕ → Command
  send_qc : QuorumCertificate → Command
  -- to the fork receiver, the batch proposer, the client replies and the pacemaker
  update_view : ℕ → ℕ → Command
  make_leader : Bool → Option Name → Command
  cancel_all_requests : Command
  stop_cancelling : Command
  my_view_jumped : ℕ → ℕ → ViewChange → Command
  -- over the network
  send_vote : Option Name → Vote → Command
  broadcast_view_change : List Name → ViewChange → Command
  -- the view change timer, and the wait for storage acknowledgements
  reset_timer : Command
  fire_timer : Command
  await_storage : List ℕ → Command

-- A storage acknowledgement is named by the number of its block.
pub record Staging : Type 0 where
  pub ci : ℕ
  pub bci : ℕ
  pub view : ℕ
  pub view_is_stable : Bool
  pub config_num : ℕ
  pub last_qc : Option QuorumCertificate
  pub curr_parent_for_pending : Option CachedBlock
  pub pending_blocks : List PendingBlock
  pub pending_signatures : List (ℕ × SignatureEntry)
  pub vc_retry_num : ℕ
  pub storage_ack_buffer : List ℕ
  pub ae_seen_in_this_view : ℕ
  -- Not a field of the source: the commands sent so far.
  pub sent : List Command

-- The state that `new` builds, with feature `view_change`.
unfoldable pub new : Staging
new = record {
  ci = 0;
  bci = 0;
  view = 0;
  view_is_stable = false;
  config_num = 1;
  last_qc = none;
  curr_parent_for_pending = none;
  pending_blocks = [];
  pending_signatures = [];
  vc_retry_num = 0;
  storage_ack_buffer = [];
  ae_seen_in_this_view = 0;
  sent = [];
}

-- `AppendEntriesStats` of src/consensus/fork_receiver.rs.
pub record AppendEntriesStats : Type 0 where
  pub view : ℕ
  pub view_is_stable : Bool
  pub config_num : ℕ
  pub sender : Name
  pub ci : ℕ

abbrev pub emit : List Command → Staging → Staging
emit cs s = record s { sent = s.sent ++ cs }

-- Whether a block carries a proposer's signature.
abbrev pub is_signed : Option Sig → Bool
is_signed (Option.some (proposer_sig _)) = true
is_signed _ = false

abbrev pub blocks_of : List PendingBlock → List CachedBlock
blocks_of = map (λ p. p.cached)

-- A block that enters the pending queue has no votes.
abbrev pub without_votes : CachedBlock → PendingBlock
without_votes b = record {
  cached = b;
  vote_sigs = [];
  replication_set = [];
  qc_is_proposed = false;
  fast_qc_is_proposed = false;
}
