-- ===== src/Examples/Leaders.antt =====
-- Runs of the block sequencer and of the pacemaker.
use powder_raft.Common.{Bytes-discrete, arith, sub64, refl, ◌≡◌, ◌∷◌, []}
use powder_raft.Sequencer.Requests.{Reaches-IsValid, IsValid, turn, start}
use powder_raft.Examples.Fixtures.{qc_for, cluster}
use powder_raft.Sequencer.{
  handle_control_command, signature_tick, Sequencer, add_qcs, must_sign_block, batch_arrives,
  handle_new_batch, worker, command_arrives, new, view_stabilised,
}
use powder_raft.Config.{get_leader_for_view, i_am_leader}

-- Node 1 leads view 1: it takes a certificate, a tick of the timer and a batch.
abbrev stable : Sequencer
stable = worker [] (command_arrives (view_stabilised 1 1)) (new cluster)

abbrev ticked : Sequencer
ticked = worker (qc_for 1 ∷ []) signature_tick stable

abbrev sequenced : Sequencer
sequenced = worker [] (batch_arrives [] []) ticked

sequenced_run : sequenced.seq_num ≡ 1
unfolding worker new add_qcs handle_new_batch handle_control_command i_am_leader must_sign_block
    get_leader_for_view sub64 Bytes-discrete
sequenced_run = refl

Reaches-IsValid_example : IsValid sequenced
unfolding worker new add_qcs handle_control_command i_am_leader get_leader_for_view sub64
Reaches-IsValid_example = Reaches-IsValid cluster sequenced (
    turn [] (batch_arrives [] []) ticked
      (turn (qc_for 1 ∷ []) signature_tick stable
        (turn [] (command_arrives (view_stabilised 1 1)) (new cluster) start (omega arith)) tt)
      tt)
