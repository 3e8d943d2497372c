-- ===== src/Proposer.antt =====
-- `BatchProposer` of src/consensus/batch_proposal.rs: it gathers the requests of clients into
-- batches for the block sequencer. The clock is an argument, in milliseconds.
pub mod Requests
pub mod Batches
use powder_raft.Common.{
  some, none, List, bytes_eq, Bool, length, leb, ℕ, false, Option, true, ◌-◌, ◌++◌, ◌∷◌, ◌&&◌, ◌||◌,
  ◌==◌, [], if◌then◌else◌,
}
use powder_raft.Common.Outcome.{panicked, done, Outcome, failed}
use powder_raft.Types.{SenderType, Transaction, TransactionOp, Name}
use powder_raft.Common.BigEndian.{from_be_bytes}

-- A client's channel, by a number, with its tag and its name.
pub record Client : Type 0 where
  pub ack_chan : ℕ
  pub client_tag : ℕ
  pub sender : SenderType

pub data Command : Type 0 where
  to_block_maker : List Transaction → List Client → Command
  to_unlogged : Transaction → Command
  unlogged_request_ack : Client → Command
  probe_request_ack : ℕ → Client → Command
  leader_reply : Name → ℕ → ℕ → Command

pub record BatchProposer : Type 0 where
  pub name : Name
  pub max_backlog_batch_size : ℕ
  pub batch_max_delay_ms : ℕ
  pub current_raw_batch : List Transaction
  pub current_reply_vec : List Client
  pub make_new_batches : Bool
  pub current_leader : Name
  pub last_batch_proposed : ℕ
  pub sent : List Command

unfoldable pub new : Name → ℕ → ℕ → ℕ → BatchProposer
new name max_batch_size max_delay now = record {
  name = name;
  max_backlog_batch_size = max_batch_size;
  batch_max_delay_ms = max_delay;
  current_raw_batch = [];
  current_reply_vec = [];
  make_new_batches = false;
  current_leader = [];
  last_batch_proposed = now;
  sent = [];
}

abbrev pub emit : List Command → BatchProposer → BatchProposer
emit cmds s = record s { sent = s.sent ++ cmds }

unfoldable pub i_am_leader : BatchProposer → Bool
i_am_leader s = bytes_eq s.name s.current_leader

-- The number in the only operand of the only operation, if that is a probe (10 on the wire).
abbrev pub probed : List TransactionOp → Option ℕ
probed (op ∷ []) = elim (op.op_type == 10) [
  | true ↦ elim op.operands [ block_n ∷ [] ↦ from_be_bytes block_n | _ ↦ none ]
  | false ↦ none
]
probed _ = none

-- The pair that the code returns, `(false, 0)` being `none`.
unfoldable pub is_probe_tx : Transaction → Option ℕ
is_probe_tx tx = elim tx.on_receive [ none ↦ none | some ops ↦ probed ops ]

abbrev pub unlogged : Transaction → Client → List Command
unfolding is_probe_tx
unlogged tx client = elim (is_probe_tx tx) [
  | none ↦ to_unlogged tx ∷ unlogged_request_ack client ∷ []
  | some block_n ↦ probe_request_ack block_n client ∷ []
]

-- The commands for a request that does not need consensus.
unfoldable pub filter_unlogged_request : Transaction → Client → Option (List Command)
filter_unlogged_request tx client = elim tx.on_receive [
  | none ↦ none
  | some _ ↦ some (unlogged tx client)
]

-- The reply names the leader; the list of nodes that it also carries is left out.
unfoldable pub reply_leader : Client → BatchProposer → BatchProposer
reply_leader client s =
    emit (leader_reply s.current_leader client.ack_chan client.client_tag ∷ []) s

unfoldable pub propose_new_batch : ℕ → BatchProposer → BatchProposer
propose_new_batch now s = record s {
  last_batch_proposed = now;
  current_raw_batch = [];
  current_reply_vec = [];
  sent = s.sent ++ to_block_maker s.current_raw_batch s.current_reply_vec ∷ [];
}

abbrev pub add : Transaction → Client → BatchProposer → BatchProposer
add tx client s = record s {
  current_raw_batch = s.current_raw_batch ++ tx ∷ [];
  current_reply_vec = s.current_reply_vec ++ client ∷ [];
}

-- The end of a turn: `tick` tells whether a batch is due.
unfoldable pub maybe_propose : Bool → ℕ → BatchProposer → BatchProposer
unfolding propose_new_batch
maybe_propose tick now s =
    if leb s.max_backlog_batch_size (length s.current_raw_batch) || (s.make_new_batches && tick)
    then propose_new_batch now s
    else s

-- A request that needs consensus.
unfoldable pub handle_request : Transaction → Client → Bool → ℕ → BatchProposer → BatchProposer
unfolding i_am_leader reply_leader maybe_propose
handle_request tx client tick now s =
    if i_am_leader s then maybe_propose tick now (add tx client s) else reply_leader client s

-- What the select loop receives: a request, whose transaction may be missing, a command, a tick, or
-- the end of its channel.
pub data Event : Type 0 where
  request : Option Transaction → Client → Event
  command : Bool → Name → Event
  timer : Bool → Event
  closed : Event

-- A request without a transaction is unwrapped, hence a panic.
unfoldable pub worker : ℕ → Event → BatchProposer → Outcome BatchProposer
unfolding filter_unlogged_request maybe_propose
worker now (request none client) s = panicked
worker now (request (some tx) client) s =
    let late = leb s.batch_max_delay_ms (now - s.last_batch_proposed) in
    elim (filter_unlogged_request tx client) [
      | some cmds ↦ done (maybe_propose late now (emit cmds s))
      | none ↦ done (handle_request tx client late now s)
    ]
worker now (command make_new_batches leader) s =
    done (record s { make_new_batches = make_new_batches; current_leader = leader })
worker now (timer true) s = done (maybe_propose true now s)
worker now (timer false) s = failed
worker now closed s = failed
