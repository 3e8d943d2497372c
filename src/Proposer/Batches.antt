-- ===== src/Proposer/Batches.antt =====
-- What the batches look like.
use powder_raft.Proposer.{
  filter_unlogged_request, to_unlogged, Event, emit, is_probe_tx, command, closed, maybe_propose,
  request, worker, propose_new_batch, unlogged_request_ack, probe_request_ack, new, handle_request,
  Command, i_am_leader, reply_leader, timer, BatchProposer, leader_reply, Client, to_block_maker,
  add, unlogged,
}
use powder_raft.Common.{
  length-append, All, false, length, leb, none, if_both, Option, All-append, refl, arith, subst,
  some, Bool, ℕ, List, true, ◌≡◌, ◌≤◌, ◌+◌, ◌-◌, ◌∷◌, ◌&&◌, ◌||◌, [], if◌then◌else◌,
}
use powder_raft.Types.{Name, TransactionOp, Transaction}
use powder_raft.Common.Outcome.{done, IfDone}

-- A batch has a client for each request, and no more requests than the configuration says; with a
-- limit of zero it may still have one.
abbrev pub IsSound : ℕ → Command → Type 0
IsSound max_batch_size (to_block_maker txs clients) =
    (length txs ≡ length clients) × (length txs ≤ max_batch_size - 1 + 1)
IsSound _ _ = Unit {0}

-- Between two turns there is room for one more request.
pub record IsValid (s : BatchProposer) : Type 0 where
  pub paired : length s.current_raw_batch ≡ length s.current_reply_vec
  pub room : length s.current_raw_batch ≤ s.max_backlog_batch_size - 1
  pub sound : All (IsSound s.max_backlog_batch_size) s.sent

-- What a task that started as `s` can become.
pub data IsRun (s : BatchProposer) : BatchProposer → Type 0 where
  start : IsRun s s
  turn :
      (now : ℕ) (event : Event) (t u : BatchProposer)
      → IsRun s t
      → worker now event t ≡ done u
      → IsRun s u

maybe_propose-IsValid :
    (late : Bool) (now : ℕ) (s : BatchProposer)
    → length s.current_raw_batch ≡ length s.current_reply_vec
    → length s.current_raw_batch ≤ s.max_backlog_batch_size - 1 + 1
    → All (IsSound s.max_backlog_batch_size) s.sent
    → IsValid (maybe_propose late now s)
unfolding maybe_propose propose_new_batch
maybe_propose-IsValid late now s paired fits sound =
    go (leb s.max_backlog_batch_size (length s.current_raw_batch)) refl (s.make_new_batches && late)
  where
    sends : IsValid (propose_new_batch now s)
    sends = record {
      paired = refl;
      room = omega arith;
      sound = All-append (IsSound s.max_backlog_batch_size) s.sent _ sound ((paired, fits), tt);
    }

    go :
        (full : Bool)
        → leb s.max_backlog_batch_size (length s.current_raw_batch) ≡ full
        → (due : Bool) → IsValid (if full || due then propose_new_batch now s else s)
    go true h due = sends
    go false h true = sends
    go false h false = record { paired = paired; room = ground arith; sound = sound }

emit-IsValid :
    (cmds : List Command) (s : BatchProposer)
    → All (IsSound s.max_backlog_batch_size) cmds
    → IsValid s
    → IsValid (emit cmds s)
emit-IsValid cmds s h v = record {
  paired = v.paired;
  room = v.room;
  sound = All-append (IsSound s.max_backlog_batch_size) s.sent cmds v.sound h;
}

-- The end of a turn that has added nothing.
end-IsValid :
    (late : Bool) (now : ℕ) (s : BatchProposer) → IsValid s → IsValid (maybe_propose late now s)
end-IsValid late now s v =
    let room = v.room in maybe_propose-IsValid late now s v.paired (omega arith) v.sound

handle_request-IsValid :
    (tx : Transaction) (client : Client) (late : Bool) (now : ℕ) (s : BatchProposer)
    → IsValid s
    → IsValid (handle_request tx client late now s)
unfolding handle_request reply_leader i_am_leader maybe_propose
handle_request-IsValid tx client late now s v =
    let room = v.room in
    let paired = v.paired in
    let grown = length-append s.current_raw_batch (tx ∷ []) in
    let replies = length-append s.current_reply_vec (client ∷ []) in
    if_both IsValid (i_am_leader s) _ _
      (maybe_propose-IsValid late now (add tx client s) (omega arith) (omega arith) v.sound)
      (emit-IsValid (leader_reply s.current_leader client.ack_chan client.client_tag ∷ []) s
        (tt, tt) v)

unlogged-IsSound :
    (max_batch_size : ℕ) (tx : Transaction) (client : Client)
    → All (IsSound max_batch_size) (unlogged tx client)
unfolding is_probe_tx
unlogged-IsSound max_batch_size tx client = go (is_probe_tx tx)
  where
    go :
        (o : Option ℕ)
        → All (IsSound max_batch_size) (elim o [
          | none ↦ to_unlogged tx ∷ unlogged_request_ack client ∷ []
          | some block_n ↦ probe_request_ack block_n client ∷ []
        ])
    go none = (tt, (tt, tt))
    go (some _) = (tt, tt)

pub worker-IsValid :
    (now : ℕ) (event : Event) (s : BatchProposer) → IsValid s → IfDone IsValid (worker now event s)
unfolding worker filter_unlogged_request
worker-IsValid now (request none client) s v = tt
worker-IsValid now (request (some tx) client) s v = go tx.on_receive
  where
    late : Bool
    late = leb s.batch_max_delay_ms (now - s.last_batch_proposed)

    go :
        (o : Option (List TransactionOp))
        → IfDone IsValid
            (elim (elim o as (λ _. Option (List Command)) [
              | none ↦ none
              | some _ ↦ some (unlogged tx client)
            ]) [
              | some cmds ↦ done (maybe_propose late now (emit cmds s))
              | none ↦ done (handle_request tx client late now s)
            ])
    go none = handle_request-IsValid tx client late now s v
    go (some _) = end-IsValid late now (emit (unlogged tx client) s) (
        emit-IsValid (unlogged tx client) s (unlogged-IsSound s.max_backlog_batch_size tx client) v)
worker-IsValid now (command _ _) s v = record { paired = v.paired; room = v.room; sound = v.sound }
worker-IsValid now (timer true) s v = end-IsValid true now s v
worker-IsValid now (timer false) s v = tt
worker-IsValid now closed s v = tt

new-IsValid :
    (name : Name) (max_batch_size max_delay now : ℕ)
    → IsValid (new name max_batch_size max_delay now)
unfolding new
new-IsValid name max_batch_size max_delay now = record {
  paired = refl;
  room = omega arith;
  sound = tt;
}

-- At any time in a run of the batch proposer, each batch that it has sent has as many clients as
-- requests, and no more requests than the configured limit, or one if the limit is zero; and fewer
-- than that wait.
pub IsRun-IsValid :
    (name : Name) (max_batch_size max_delay now : ℕ) (s : BatchProposer)
    → IsRun (new name max_batch_size max_delay now) s
    → IsValid s
IsRun-IsValid name max_batch_size max_delay now s start =
    new-IsValid name max_batch_size max_delay now
IsRun-IsValid name max_batch_size max_delay now s (turn at event t u before h) =
    subst (IfDone IsValid) h
      (worker-IsValid at event t (IsRun-IsValid name max_batch_size max_delay now t before))
