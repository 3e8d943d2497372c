-- ===== src/Replies.antt =====
-- `ClientReplyHandler` of src/consensus/client_reply.rs: it brings the results of a block together
-- with the clients that wait for them. A reply is a command to the processors that send it; the
-- result of an unlogged request, which they wait for, is left out.
pub mod Order
use powder_raft.Common.{
  List, remove, none, ℕ, true, length, Bool, leb, Bytes-discrete, Option, ltb, Bytes, map, some,
  false, map_or, insert, lookup, ◌+◌, ◌++◌, ◌∷◌, ◌||◌, ◌==◌, [], if◌then◌else◌,
}
use powder_raft.App.{Answer}
use powder_raft.Types.{SenderType, OpResult}
use powder_raft.ForkChoice.{SenderType-discrete}
use powder_raft.Common.Outcome.{Outcome, panicked, done, ◌>>=◌}
use powder_raft.Proposer.{Client}
use powder_raft.Kvs.Blocks.{ByzResponse}

pub data Command : Type 0 where
  crash_commit : ℕ → ℕ → Bytes → List OpResult → Client → List ByzResponse → Command
  unlogged : Client → Command
  probe : ℕ → List Client → Command
  try_again : Client → Command

pub record ClientReplyHandler : Type 0 where
  pub reply_map : List (Bytes × List Client)
  pub byz_reply_map : List (Bytes × List (ℕ × SenderType))
  pub crash_commit_reply_buf : List (Bytes × (ℕ × List (List OpResult)))
  pub byz_commit_reply_buf : List (Bytes × (ℕ × List ByzResponse))
  pub byz_response_store : List (SenderType × List ByzResponse)
  pub probe_buffer : List (ℕ × List Client)
  pub acked_bci : ℕ
  pub must_cancel : Bool
  pub sent : List Command

abbrev pub emit : List Command → ClientReplyHandler → ClientReplyHandler
emit cmds s = record s { sent = s.sent ++ cmds }

abbrev pub waiting : List (ℕ × List Client) → ℕ → List (ℕ × List Client)
waiting [] bci = []
waiting ((block_n, clients) ∷ buffer) bci =
    let rest = waiting buffer bci in if leb block_n bci then rest else (block_n, clients) ∷ rest

abbrev pub probe_replies : List (ℕ × List Client) → ℕ → List Command
probe_replies [] bci = []
probe_replies ((block_n, clients) ∷ buffer) bci =
    let rest = probe_replies buffer bci in
    if leb block_n bci then probe block_n clients ∷ rest else rest

unfoldable pub maybe_clear_probe_buf : ClientReplyHandler → ClientReplyHandler
maybe_clear_probe_buf s = record s {
  probe_buffer = waiting s.probe_buffer s.acked_bci;
  sent = s.sent ++ probe_replies s.probe_buffer s.acked_bci;
}

-- A probe of block `n` joins those of the same block; the entries stay in the order of blocks.
abbrev pub add_probe : ℕ → Client → List (ℕ × List Client) → List (ℕ × List Client)
add_probe n client [] = (n, client ∷ []) ∷ []
add_probe n client ((block_n, clients) ∷ buffer) =
    let rest = add_probe n client buffer in
    if n == block_n
    then (block_n, clients ++ client ∷ []) ∷ buffer
    else if ltb n block_n
    then (n, client ∷ []) ∷ (block_n, clients) ∷ buffer
    else (block_n, clients) ∷ rest

-- The replies from transaction `tx_n` on. Each takes what is stored for the client's name.
abbrev pub crash_replies :
    ℕ → ℕ → Bytes → List Client → List (List OpResult) → ClientReplyHandler → ClientReplyHandler
unfolding SenderType-discrete lookup remove
crash_replies tx_n n hash (client ∷ clients) (result ∷ results) s =
    crash_replies (tx_n + 1) n hash clients results (record s {
      byz_response_store = remove SenderType-discrete client.sender s.byz_response_store;
      sent =
          s.sent
          ++ crash_commit n tx_n hash result client (
              map_or [] (λ stored. stored)
                (lookup SenderType-discrete client.sender s.byz_response_store))
            ∷ [];
    })
crash_replies tx_n n hash _ _ s = s

-- `assert_eq` on the lengths panics.
unfoldable pub do_crash_commit_reply :
    List Client → Bytes → ℕ → List (List OpResult) → ClientReplyHandler → Outcome ClientReplyHandler
unfolding crash_replies
do_crash_commit_reply clients hash n results s =
    if length clients == length results
    then done (crash_replies 0 n hash clients results s)
    else panicked

-- The responses are kept for the next reply to the same client.
abbrev pub store_responses :
    List (ℕ × SenderType)
    → List ByzResponse
    → List (SenderType × List ByzResponse)
    → List (SenderType × List ByzResponse)
unfolding SenderType-discrete lookup insert
store_responses ((client_tag, sender) ∷ clients) (response ∷ responses) store =
    store_responses clients responses (
      insert SenderType-discrete sender
        (map_or [] (λ stored. stored) (lookup SenderType-discrete sender store)
          ++ record response { client_tag = client_tag } ∷ [])
        store)
store_responses _ _ store = store

unfoldable pub do_byz_commit_reply :
    List (ℕ × SenderType) → ℕ → List ByzResponse → ClientReplyHandler → Outcome ClientReplyHandler
unfolding store_responses maybe_clear_probe_buf
do_byz_commit_reply clients n responses s =
    if length clients == length responses
    then done (
        maybe_clear_probe_buf (record s {
          byz_response_store = store_responses clients responses s.byz_response_store;
          acked_bci = if ltb s.acked_bci n then n else s.acked_bci;
        }))
    else panicked

-- One acknowledged block, whose results wait if its batch is not known yet.
unfoldable pub crash_commit_block :
    Bytes → ℕ → List (List OpResult) → ClientReplyHandler → Outcome ClientReplyHandler
unfolding do_crash_commit_reply Bytes-discrete lookup remove insert
crash_commit_block hash n results s = elim (lookup Bytes-discrete hash s.reply_map) [
  | some clients ↦
      do_crash_commit_reply clients hash n results
        (record s { reply_map = remove Bytes-discrete hash s.reply_map })
  | none ↦ done (record s {
    crash_commit_reply_buf = insert Bytes-discrete hash (n, results) s.crash_commit_reply_buf;
  })
]

unfoldable pub byz_commit_block :
    Bytes → ℕ → List ByzResponse → ClientReplyHandler → Outcome ClientReplyHandler
unfolding do_byz_commit_reply Bytes-discrete lookup remove insert
byz_commit_block hash n responses s = elim (lookup Bytes-discrete hash s.byz_reply_map) [
  | some clients ↦
      do_byz_commit_reply clients n responses
        (record s { byz_reply_map = remove Bytes-discrete hash s.byz_reply_map })
  | none ↦ done (record s {
    byz_commit_reply_buf = insert Bytes-discrete hash (n, responses) s.byz_commit_reply_buf;
  })
]

abbrev pub crash_commit_acks :
    List (Answer (List (List OpResult))) → ClientReplyHandler → Outcome ClientReplyHandler
unfolding crash_commit_block
crash_commit_acks [] s = done s
crash_commit_acks ((hash, (n, results)) ∷ acks) s =
    crash_commit_block hash n results s >>= λ t. crash_commit_acks acks t

abbrev pub byz_commit_acks :
    List (Answer (List ByzResponse)) → ClientReplyHandler → Outcome ClientReplyHandler
unfolding byz_commit_block
byz_commit_acks [] s = done s
byz_commit_acks ((hash, (n, responses)) ∷ acks) s =
    byz_commit_block hash n responses s >>= λ t. byz_commit_acks acks t

-- Waiting Byzantine responses of the block are stored.
unfoldable pub clear_byz_reply_buf : Bytes → ClientReplyHandler → Outcome ClientReplyHandler
unfolding do_byz_commit_reply Bytes-discrete lookup remove
clear_byz_reply_buf hash s = elim (lookup Bytes-discrete hash s.byz_commit_reply_buf) [
  | none ↦ done s
  | some (n, responses) ↦
      let t = record s {
        byz_commit_reply_buf = remove Bytes-discrete hash s.byz_commit_reply_buf;
      } in
      elim (lookup Bytes-discrete hash s.byz_reply_map) [
        | none ↦ done t
        | some clients ↦
            do_byz_commit_reply clients n responses
              (record t { byz_reply_map = remove Bytes-discrete hash s.byz_reply_map })
      ]
]

-- Waiting results of the block are sent.
unfoldable pub clear_crash_reply_buf : Bytes → ClientReplyHandler → Outcome ClientReplyHandler
unfolding do_crash_commit_reply Bytes-discrete lookup remove
clear_crash_reply_buf hash s = elim (lookup Bytes-discrete hash s.crash_commit_reply_buf) [
  | none ↦ done s
  | some (n, results) ↦
      let t = record s {
        crash_commit_reply_buf = remove Bytes-discrete hash s.crash_commit_reply_buf;
      } in
      elim (lookup Bytes-discrete hash s.reply_map) [
        | none ↦ done t
        | some clients ↦
            do_crash_commit_reply clients hash n results
              (record t { reply_map = remove Bytes-discrete hash s.reply_map })
      ]
]

unfoldable pub maybe_clear_reply_buf : Bytes → ClientReplyHandler → Outcome ClientReplyHandler
unfolding clear_byz_reply_buf clear_crash_reply_buf
maybe_clear_reply_buf hash s = clear_byz_reply_buf hash s >>= λ t. clear_crash_reply_buf hash t

abbrev pub is_empty : Bytes → Bool
is_empty [] = true
is_empty (_ ∷ _) = false

-- The batch of a block. One without a hash was not taken by the sequencer.
unfoldable pub handle_batch : Bytes → List Client → ClientReplyHandler → Outcome ClientReplyHandler
unfolding maybe_clear_reply_buf Bytes-discrete insert
handle_batch hash clients s =
    if is_empty hash || s.must_cancel
    then done (emit (map try_again clients) s)
    else maybe_clear_reply_buf hash (record s {
      byz_reply_map =
          insert Bytes-discrete hash (map (λ client. (client.client_tag, client.sender)) clients)
            s.byz_reply_map;
      reply_map = insert Bytes-discrete hash clients s.reply_map;
    })

abbrev pub try_again_all : List (Bytes × List Client) → List Command
try_again_all [] = []
try_again_all ((_, clients) ∷ m) = map try_again clients ++ try_again_all m

pub data Event : Type 0 where
  batch : Option Bytes → List Client → Event
  crash_commit_ack : List (Answer (List (List OpResult))) → Event
  byz_commit_ack : List (Answer (List ByzResponse)) → Event
  cancel_all_requests : Event
  stop_cancelling : Event
  unlogged_request_ack : Client → Event
  probe_request_ack : ℕ → Client → Event
  closed : Event

-- A batch whose hash never comes is a panic.
unfoldable pub worker : Event → ClientReplyHandler → Outcome ClientReplyHandler
unfolding handle_batch maybe_clear_probe_buf crash_commit_acks byz_commit_acks
worker (batch none clients) s = panicked
worker (batch (some hash) clients) s = handle_batch hash clients s
worker (crash_commit_ack acks) s = crash_commit_acks acks s
worker (byz_commit_ack acks) s = byz_commit_acks acks s
worker cancel_all_requests s =
    done
      (record s { reply_map = []; must_cancel = true; sent = s.sent ++ try_again_all s.reply_map })
worker closed s = done s
worker stop_cancelling s = done (record s { must_cancel = false })
worker (unlogged_request_ack client) s = done (emit (unlogged client ∷ []) s)
worker (probe_request_ack block_n client) s =
    done
      (maybe_clear_probe_buf (record s { probe_buffer = add_probe block_n client s.probe_buffer }))
