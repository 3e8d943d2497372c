-- ===== src/Sequencer.antt =====
-- `BlockSequencer` of src/consensus/block_sequencer.rs: the leader numbers and links the blocks.
pub mod Requests
use powder_raft.Common.{
  ℕ, sub64, true, Bytes, not, some, retain, Bool, leb, List, ltb, false, ◌+◌, ◌++◌, ◌∷◌, ◌&&◌, ◌||◌,
  ◌==◌, [], if◌then◌else◌,
}
use powder_raft.Types.{Transaction, no_sig, QuorumCertificate, Block, ForkValidation}
use powder_raft.Config.{Config, i_am_leader}
use powder_raft.Staging.NewView.{new_parent_hash}

-- `parent_hash_rx`. `hash_of b` is the channel on which the hash of the prepared block `b` comes.
pub data ParentHash : Type 0 where
  no_hash : ParentHash
  immediate : Bytes → ParentHash
  hash_of : Block → ParentHash

-- A call of `CryptoServiceConnector::prepare_block`.
pub record Request : Type 0 where
  pub block : Block
  pub must_sign : Bool
  pub parent_hash_rx : ParentHash

-- Client channels with their tags.
abbrev pub Replies : Type 0
Replies = List ℕ

pub data Command : Type 0 where
  prepare_block : Request → Command
  -- The clients get the hash of block `n`, or an empty one.
  reply_with_hash : ℕ → Replies → Command
  reply_empty : Replies → Command
  broadcast : ℕ → Command

pub record Sequencer : Type 0 where
  pub config : Config
  pub current_qc_list : List QuorumCertificate
  pub parent_hash_rx : ParentHash
  pub seq_num : ℕ
  pub view : ℕ
  pub config_num : ℕ
  pub view_is_stable : Bool
  pub force_sign_next_batch : Bool
  pub last_signed_seq_num : ℕ
  pub last_qc_n_seen : ℕ
  pub blocks_proposed_in_this_view : ℕ
  pub sent : List Command

unfoldable pub new : Config → Sequencer
new config = record {
  config = config;
  current_qc_list = [];
  parent_hash_rx = no_hash;
  seq_num = 0;
  view = 0;
  config_num = 0;
  view_is_stable = false;
  force_sign_next_batch = false;
  last_signed_seq_num = 0;
  last_qc_n_seen = 0;
  blocks_proposed_in_this_view = 0;
  sent = [];
}

-- A certificate of another view is dropped.
unfoldable pub add_qc : QuorumCertificate → Sequencer → Sequencer
add_qc qc s =
    if qc.view == s.view
    then record s {
      last_qc_n_seen = if ltb s.last_qc_n_seen qc.n then qc.n else s.last_qc_n_seen;
      current_qc_list = s.current_qc_list ++ qc ∷ [];
    }
    else s

unfoldable pub add_qcs : List QuorumCertificate → Sequencer → Sequencer
unfolding add_qc
add_qcs [] s = s
add_qcs (qc ∷ qcs) s = add_qcs qcs (add_qc qc s)

-- Whether block `n` is signed: on demand, after so many unsigned ones (the difference wraps), and if
-- it opens a view.
unfoldable pub must_sign_block : ℕ → Sequencer → Bool
unfolding i_am_leader
must_sign_block n s =
    s.force_sign_next_batch
    || leb s.config.signature_max_delay_blocks (sub64 n s.last_signed_seq_num)
    || (i_am_leader s.config s.view && not s.view_is_stable)

abbrev pub new_block : List Transaction → List ForkValidation → Bool → Sequencer → Block
new_block batch fork_validation must_sign s = record {
  tx_list = batch;
  n = s.seq_num + 1;
  parent = [];
  view = s.view;
  qc = if must_sign then s.current_qc_list else [];
  fork_validation = fork_validation;
  view_is_stable = s.view_is_stable;
  config_num = s.config_num;
  sig = some no_sig;
}

unfoldable pub handle_new_batch :
    List Transaction → Replies → List ForkValidation → Sequencer → Sequencer
unfolding must_sign_block
handle_new_batch batch replies fork_validation s =
    let n = s.seq_num + 1 in
    let must_sign = must_sign_block n s in
    let block = new_block batch fork_validation must_sign s in
    record s {
      seq_num = n;
      last_signed_seq_num = if must_sign then n else s.last_signed_seq_num;
      force_sign_next_batch = if must_sign then false else s.force_sign_next_batch;
      current_qc_list = if must_sign then [] else s.current_qc_list;
      parent_hash_rx = hash_of block;
      sent =
          s.sent
          ++ prepare_block
              (record { block = block; must_sign = must_sign; parent_hash_rx = s.parent_hash_rx })
            ∷ reply_with_hash n replies
            ∷ broadcast n
            ∷ [];
    }

-- `BlockSequencerControlCommand`
pub data ControlCommand : Type 0 where
  new_unstable_view : ℕ → ℕ → ControlCommand
  view_stabilised : ℕ → ℕ → ControlCommand
  new_view_message : ℕ → ℕ → List ForkValidation → Bytes → ℕ → ControlCommand

abbrev pub enter_view : ℕ → ℕ → Bool → Sequencer → Sequencer
enter_view v c stable s = record s {
  view = v;
  config_num = c;
  view_is_stable = stable;
  current_qc_list = retain (λ e. leb v e.view) s.current_qc_list;
  blocks_proposed_in_this_view = 0;
  last_qc_n_seen = s.seq_num;
}

unfoldable pub handle_control_command : ControlCommand → Sequencer → Sequencer
unfolding i_am_leader handle_new_batch
handle_control_command (new_unstable_view v c) s = enter_view v c false s
handle_control_command (view_stabilised v c) s = enter_view v c true s
handle_control_command (new_view_message v c fork_validation new_parent_hash new_seq_num) s =
    let s' = record s {
      view = v;
      config_num = c;
      view_is_stable = false;
      current_qc_list = retain (λ e. e.view == v) s.current_qc_list;
      last_qc_n_seen = new_seq_num;
      blocks_proposed_in_this_view = 0;
    } in
    if i_am_leader s.config v
    then handle_new_batch [] [] fork_validation
        (record s' { seq_num = new_seq_num; parent_hash_rx = immediate new_parent_hash })
    else s'

-- What the select loop takes next. A closed channel of batches or commands gives nothing.
pub data Event : Type 0 where
  qcs_arrive : List QuorumCertificate → Event
  signature_tick : Event
  batch_arrives : List Transaction → Replies → Event
  command_arrives : ControlCommand → Event
  channel_closed : Event

-- One turn: the certificates that wait already, then an event. Only a leader in a stable view waits
-- for the timer and sequences batches; else batches are answered with an empty hash.
unfoldable pub worker : List QuorumCertificate → Event → Sequencer → Sequencer
unfolding i_am_leader add_qcs handle_new_batch handle_control_command
worker waiting event s =
    let listen_for_new_batch = s.view_is_stable && i_am_leader s.config s.view in
    let s' = add_qcs waiting s in
    elim event [
      | qcs_arrive qcs ↦ add_qcs qcs s'
      | signature_tick ↦
          if listen_for_new_batch then record s' { force_sign_next_batch = true } else s'
      | batch_arrives batch replies ↦
          if listen_for_new_batch
          then handle_new_batch batch replies []
              (record s' { blocks_proposed_in_this_view = s'.blocks_proposed_in_this_view + 1 })
          else record s' { sent = s'.sent ++ reply_empty replies ∷ [] }
      | command_arrives cmd ↦ handle_control_command cmd s'
      | channel_closed ↦ s'
    ]
