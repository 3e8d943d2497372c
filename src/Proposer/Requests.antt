-- ===== src/Proposer/Requests.antt =====
-- What becomes of the requests that the leader accepts.
use powder_raft.Proposer.{
  Event, closed, emit, maybe_propose, request, unlogged, BatchProposer, is_probe_tx, i_am_leader,
  unlogged_request_ack, probe_request_ack, timer, handle_request, propose_new_batch, add, worker,
  reply_leader, command, Client, to_block_maker, filter_unlogged_request, to_unlogged, Command,
  leader_reply,
}
use powder_raft.Common.{
  Bool, sym, ap, refl, if_both, List, leb, true, length, some, ℕ, false, none, ◌≡◌, ◌∙◌, ◌-◌, ◌++◌,
  ◌∷◌, ◌&&◌, ◌||◌, [], if◌then◌else◌, Option, append_nothing, append_assoc,
}
use powder_raft.Types.{Transaction, TransactionOp}
use powder_raft.Common.Outcome.{IfDone, done}

-- The requests in the batches that went to the block sequencer, one after the other.
abbrev pub proposed_txs : List Command → List Transaction
proposed_txs [] = []
proposed_txs (to_block_maker txs clients ∷ cmds) = txs ++ proposed_txs cmds
proposed_txs (_ ∷ cmds) = proposed_txs cmds

-- Their clients.
abbrev pub proposed_clients : List Command → List Client
proposed_clients [] = []
proposed_clients (to_block_maker txs clients ∷ cmds) = clients ++ proposed_clients cmds
proposed_clients (_ ∷ cmds) = proposed_clients cmds

-- All requests so far: those proposed, then those that wait for their batch.
abbrev pub all_txs : BatchProposer → List Transaction
all_txs s = proposed_txs s.sent ++ s.current_raw_batch

abbrev pub all_clients : BatchProposer → List Client
all_clients s = proposed_clients s.sent ++ s.current_reply_vec

-- The leader accepts what does not ask for an answer on receipt.
abbrev pub accepts : Event → BatchProposer → Bool
unfolding i_am_leader
accepts (request (some tx) client) s = elim tx.on_receive [ none ↦ i_am_leader s | some _ ↦ false ]
accepts _ s = false

abbrev pub accepted_txs : Event → BatchProposer → List Transaction
accepted_txs (request (some tx) client) s =
    if accepts (request (some tx) client) s then tx ∷ [] else []
accepted_txs _ s = []

abbrev pub accepted_clients : Event → BatchProposer → List Client
accepted_clients (request (some tx) client) s =
    if accepts (request (some tx) client) s then client ∷ [] else []
accepted_clients _ s = []

-- Requests and clients have been added at the end of what there was, and nothing else has changed.
abbrev pub Adds : List Transaction → List Client → BatchProposer → BatchProposer → Type 0
Adds txs clients s s' =
    (all_txs s' ≡ all_txs s ++ txs) × (all_clients s' ≡ all_clients s ++ clients)

proposed_txs-append :
    (xs ys : List Command) → proposed_txs (xs ++ ys) ≡ proposed_txs xs ++ proposed_txs ys
proposed_txs-append [] ys = refl
proposed_txs-append (to_block_maker txs clients ∷ xs) ys =
    ap (λ rest. txs ++ rest) (proposed_txs-append xs ys)
    ∙ sym (append_assoc txs (proposed_txs xs) (proposed_txs ys))
proposed_txs-append (to_unlogged _ ∷ xs) ys = proposed_txs-append xs ys
proposed_txs-append (unlogged_request_ack _ ∷ xs) ys = proposed_txs-append xs ys
proposed_txs-append (probe_request_ack _ _ ∷ xs) ys = proposed_txs-append xs ys
proposed_txs-append (leader_reply _ _ _ ∷ xs) ys = proposed_txs-append xs ys

proposed_clients-append :
    (xs ys : List Command)
    → proposed_clients (xs ++ ys) ≡ proposed_clients xs ++ proposed_clients ys
proposed_clients-append [] ys = refl
proposed_clients-append (to_block_maker txs clients ∷ xs) ys =
    ap (λ rest. clients ++ rest) (proposed_clients-append xs ys)
    ∙ sym (append_assoc clients (proposed_clients xs) (proposed_clients ys))
proposed_clients-append (to_unlogged _ ∷ xs) ys = proposed_clients-append xs ys
proposed_clients-append (unlogged_request_ack _ ∷ xs) ys = proposed_clients-append xs ys
proposed_clients-append (probe_request_ack _ _ ∷ xs) ys = proposed_clients-append xs ys
proposed_clients-append (leader_reply _ _ _ ∷ xs) ys = proposed_clients-append xs ys

Adds-nothing : (s : BatchProposer) → Adds [] [] s s
Adds-nothing s = (sym (append_nothing (all_txs s)), sym (append_nothing (all_clients s)))

-- Commands without a batch.
emit-Adds :
    (cmds : List Command) (s : BatchProposer)
    → proposed_txs cmds ≡ []
    → proposed_clients cmds ≡ []
    → Adds [] [] s (emit cmds s)
emit-Adds cmds s h g = (
  ap (λ xs. xs ++ s.current_raw_batch)
        (proposed_txs-append s.sent cmds
          ∙ ap (λ xs. proposed_txs s.sent ++ xs) h
          ∙ append_nothing (proposed_txs s.sent))
      ∙ sym (append_nothing (all_txs s)),
  ap (λ xs. xs ++ s.current_reply_vec)
        (proposed_clients-append s.sent cmds
          ∙ ap (λ xs. proposed_clients s.sent ++ xs) g
          ∙ append_nothing (proposed_clients s.sent))
      ∙ sym (append_nothing (all_clients s)),
)

maybe_propose-Adds :
    (late : Bool) (now : ℕ) (txs : List Transaction) (clients : List Client) (s t : BatchProposer)
    → Adds txs clients s t
    → Adds txs clients s (maybe_propose late now t)
unfolding maybe_propose propose_new_batch
maybe_propose-Adds late now txs clients s t p =
    if_both (Adds txs clients s)
      (leb t.max_backlog_batch_size (length t.current_raw_batch) || (t.make_new_batches && late)) _
      _
      (
        append_nothing (proposed_txs (t.sent ++ batch ∷ []))
            ∙ proposed_txs-append t.sent (batch ∷ [])
            ∙ ap (λ xs. proposed_txs t.sent ++ xs) (append_nothing t.current_raw_batch)
            ∙ p.0,
        append_nothing (proposed_clients (t.sent ++ batch ∷ []))
            ∙ proposed_clients-append t.sent (batch ∷ [])
            ∙ ap (λ xs. proposed_clients t.sent ++ xs) (append_nothing t.current_reply_vec)
            ∙ p.1,
      )
      p
  where
    batch : Command
    batch = to_block_maker t.current_raw_batch t.current_reply_vec

add-Adds :
    (tx : Transaction) (client : Client) (s : BatchProposer)
    → Adds (tx ∷ []) (client ∷ []) s (add tx client s)
add-Adds tx client s = (
  sym (append_assoc (proposed_txs s.sent) s.current_raw_batch (tx ∷ [])),
  sym (append_assoc (proposed_clients s.sent) s.current_reply_vec (client ∷ [])),
)

unlogged-no_batch :
    (tx : Transaction) (client : Client)
    → (proposed_txs (unlogged tx client) ≡ []) × (proposed_clients (unlogged tx client) ≡ [])
unfolding is_probe_tx
unlogged-no_batch tx client = go (is_probe_tx tx)
  where
    cmds : Option ℕ → List Command
    cmds o = elim o [
      | none ↦ to_unlogged tx ∷ unlogged_request_ack client ∷ []
      | some block_n ↦ probe_request_ack block_n client ∷ []
    ]

    go : (o : Option ℕ) → (proposed_txs (cmds o) ≡ []) × (proposed_clients (cmds o) ≡ [])
    go none = (refl, refl)
    go (some _) = (refl, refl)

handle_request-Adds :
    (tx : Transaction) (client : Client) (late : Bool) (now : ℕ) (s : BatchProposer)
    → Adds
        (if i_am_leader s then tx ∷ [] else [])
        (if i_am_leader s then client ∷ [] else [])
        s
        (handle_request tx client late now s)
unfolding handle_request reply_leader i_am_leader maybe_propose
handle_request-Adds tx client late now s = go (i_am_leader s)
  where
    go :
        (leader : Bool)
        → Adds
            (if leader then tx ∷ [] else [])
            (if leader then client ∷ [] else [])
            s
            (if leader then maybe_propose late now (add tx client s) else reply_leader client s)
    go true =
        maybe_propose-Adds late now (tx ∷ []) (client ∷ []) s (add tx client s)
          (add-Adds tx client s)
    go false =
        emit-Adds (leader_reply s.current_leader client.ack_chan client.client_tag ∷ []) s refl refl

-- No request is lost, doubled or moved. Every event that the batch proposer handles adds to the
-- requests that were proposed or wait exactly the one that it accepts, which is one that needs
-- consensus and reaches a leader, and adds its client at the same place.
pub worker-Adds :
    (now : ℕ) (event : Event) (s : BatchProposer)
    → IfDone (Adds (accepted_txs event s) (accepted_clients event s) s) (worker now event s)
unfolding worker filter_unlogged_request i_am_leader
worker-Adds now (request none client) s = tt
worker-Adds now (request (some tx) client) s = go tx.on_receive
  where
    late : Bool
    late = leb s.batch_max_delay_ms (now - s.last_batch_proposed)

    taken : Option (List TransactionOp) → Bool
    taken o = elim o [ none ↦ i_am_leader s | some _ ↦ false ]

    go :
        (o : Option (List TransactionOp))
        → IfDone
            (Adds (if taken o then tx ∷ [] else []) (if taken o then client ∷ [] else []) s)
            (elim (elim o as (λ _. Option (List Command)) [
              | none ↦ none
              | some _ ↦ some (unlogged tx client)
            ]) [
              | some cmds ↦ done (maybe_propose late now (emit cmds s))
              | none ↦ done (handle_request tx client late now s)
            ])
    go none = handle_request-Adds tx client late now s
    go (some _) =
        let h = unlogged-no_batch tx client in
        maybe_propose-Adds late now [] [] s (emit (unlogged tx client) s)
          (emit-Adds (unlogged tx client) s h.0 h.1)
worker-Adds now (command _ _) s = Adds-nothing s
worker-Adds now (timer true) s = maybe_propose-Adds true now [] [] s s (Adds-nothing s)
worker-Adds now (timer false) s = tt
worker-Adds now closed s = tt
