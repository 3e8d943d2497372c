-- ===== src/Examples/Answers.antt =====
-- The batch of a block and its results, for two clients.
use powder_raft.Replies.{ClientReplyHandler, batch, crash_commit_ack, Event, worker}
use powder_raft.Common.{lookup, false, List, ℕ, some, Bytes, refl, ◌≡◌, ◌∷◌, []}
use powder_raft.Types.{anon, OpResult}
use powder_raft.Replies.Order.{worker-swaps}
use powder_raft.Proposer.{Client}
use powder_raft.Common.Outcome.{◌>>=◌}

abbrev idle : ClientReplyHandler
idle = record {
  reply_map = [];
  byz_reply_map = [];
  crash_commit_reply_buf = [];
  byz_commit_reply_buf = [];
  byz_response_store = [];
  probe_buffer = [];
  acked_bci = 0;
  must_cancel = false;
  sent = [];
}

abbrev hash : Bytes
hash = 7 ∷ []

abbrev waiting_client : ℕ → Client
waiting_client k = record { ack_chan = k; client_tag = k; sender = anon }

abbrev two_clients : List Client
two_clients = waiting_client 1 ∷ waiting_client 2 ∷ []

abbrev two_results : List (List OpResult)
two_results = [] ∷ [] ∷ []

abbrev acked : Event
acked = crash_commit_ack ((hash, (5, two_results)) ∷ [])

worker-swaps_example :
    (worker (batch (some hash) two_clients) idle >>= λ t. worker acked t)
    ≡ (worker acked idle >>= λ t. worker (batch (some hash) two_clients) t)
unfolding lookup
worker-swaps_example = worker-swaps hash two_clients 5 two_results idle refl refl refl refl refl
