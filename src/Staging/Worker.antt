-- ===== src/Staging/Worker.antt =====
-- The select loop of src/consensus/staging/mod.rs: one event at a time.
pub mod Advance
pub mod Handlers
pub mod Progress
use powder_raft.Common.{ℕ, Bool, true, false}
use powder_raft.Common.Outcome.{Outcome, done, failed}
use powder_raft.Types.{CachedBlock, Vote, SenderType}
use powder_raft.Config.{Config, i_am_leader}
use powder_raft.Crypto.{Crypto}
use powder_raft.Staging.State.{Staging, AppendEntriesStats}
use powder_raft.Staging.ViewChange.{handle_view_change_timer_tick, maybe_update_view}
use powder_raft.Staging.NewView.{Forks, name_of, propose_new_view}
use powder_raft.Staging.Votes.{verify_and_process_vote}
use powder_raft.Staging.Blocks.{process_block}

-- What the worker waits for. A tick comes with the pacemaker's answer.
pub data Event : Type 0 where
  tick : Bool → Event
  block : CachedBlock → ℕ → AppendEntriesStats → Bool → Event
  vote : SenderType → Vote → Event
  pacemaker_update_view : ℕ → ℕ → Event
  pacemaker_new_view_forks : ℕ → ℕ → Forks → Event
  closed : Event

unfoldable pub worker : Config → Crypto → Event → Staging → Outcome Staging
unfolding handle_view_change_timer_tick verify_and_process_vote propose_new_view process_block
worker cfg crypto (tick enough) s = done (handle_view_change_timer_tick cfg crypto enough s)
worker cfg crypto (block b ack st final) s =
    process_block 2 cfg crypto (i_am_leader cfg s.view) b ack st final s
worker cfg crypto (vote sender v) s = elim (i_am_leader cfg s.view) [
  | true ↦ verify_and_process_vote cfg crypto (name_of sender) v s
  | false ↦ done s
]
worker cfg crypto (pacemaker_update_view view_num config_num) s =
    done (maybe_update_view cfg crypto view_num config_num s)
worker cfg crypto (pacemaker_new_view_forks view_num config_num forks) s =
    propose_new_view cfg crypto view_num config_num forks s
worker cfg crypto closed s = failed
