-- ===== src/Examples/Clients.antt =====
-- A leader that makes batches of two takes the second request.
use powder_raft.Examples.Fixtures.{node}
use powder_raft.Common.{Bytes-discrete, true, refl, false, some, ℕ, none, ◌≡◌, ◌∷◌, []}
use powder_raft.Proposer.Batches.{IsValid, turn, start, IsRun-IsValid}
use powder_raft.Proposer.{
  worker, Event, i_am_leader, handle_request, new, to_block_maker, command, propose_new_batch,
  Client, BatchProposer, filter_unlogged_request, maybe_propose, request,
}
use powder_raft.Proposer.Requests.{accepted_txs, Adds, worker-Adds, accepted_clients}
use powder_raft.Types.{anon, Transaction}
use powder_raft.Common.Outcome.{done, IfDone}

abbrev tx : Transaction
tx = record {
  on_receive = none;
  on_crash_commit = some [];
  on_byzantine_commit = none;
  is_reconfiguration = false;
  is_2pc = false;
}

abbrev client : ℕ → Client
client k = record { ack_chan = k; client_tag = 1; sender = anon }

abbrev fresh : BatchProposer
fresh = new (node 1) 2 10 0

abbrev leading : BatchProposer
leading = record fresh { make_new_batches = true; current_leader = node 1 }

abbrev half_full : BatchProposer
half_full = record leading { current_raw_batch = tx ∷ []; current_reply_vec = client 1 ∷ [] }

abbrev second : Event
second = request (some tx) (client 2)

worker-Adds_example :
    IfDone
      (Adds (accepted_txs second half_full) (accepted_clients second half_full) half_full)
      (worker 3 second half_full)
worker-Adds_example = worker-Adds 3 second half_full

abbrev proposed : BatchProposer
proposed = record leading {
  last_batch_proposed = 3;
  sent = to_block_maker (tx ∷ tx ∷ []) (client 1 ∷ client 2 ∷ []) ∷ [];
}

first_turn : worker 0 (command true (node 1)) fresh ≡ done leading
unfolding worker new
first_turn = refl

second_turn : worker 2 (request (some tx) (client 1)) leading ≡ done half_full
unfolding worker filter_unlogged_request i_am_leader handle_request maybe_propose new Bytes-discrete
second_turn = refl

third_turn : worker 3 second half_full ≡ done proposed
unfolding worker filter_unlogged_request i_am_leader handle_request maybe_propose propose_new_batch
    new Bytes-discrete
third_turn = refl

IsRun-IsValid_example : IsValid proposed
IsRun-IsValid_example = IsRun-IsValid (node 1) 2 10 0 proposed (
    turn 3 second half_full proposed
      (turn 2 (request (some tx) (client 1)) leading half_full
        (turn 0 (command true (node 1)) fresh leading start first_turn) second_turn)
      third_turn)
