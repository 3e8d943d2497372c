-- ===== src/Replies/Order.antt =====
-- Results and batches may come in either order.
use powder_raft.Common.{
  Bytes-discrete, insert, map, Bytes, false, some, refl, remove, lookup, none, List, ◌≡◌, ◌∷◌, [],
  ℕ, ap, sym, ◌∙◌, lookup_inserted, remove_inserted,
}
use powder_raft.Replies.{
  ClientReplyHandler, clear_byz_reply_buf, maybe_clear_reply_buf, handle_batch, is_empty,
  clear_crash_reply_buf, do_crash_commit_reply, crash_commit_block, batch, crash_commit_ack,
  crash_commit_acks, worker,
}
use powder_raft.Common.Outcome.{out_of_fuel, panicked, failed, Outcome, done, ◌>>=◌}
use powder_raft.Proposer.{Client}
use powder_raft.Types.{OpResult}

>>=-done : {A : Type 0} (m : Outcome A) → (m >>= λ a. done a) ≡ m
>>=-done (done a) = refl
>>=-done panicked = refl
>>=-done failed = refl
>>=-done out_of_fuel = refl

module _ (hash : Bytes) (clients : List Client) where
  registered : ClientReplyHandler → ClientReplyHandler
  unfolding insert Bytes-discrete
  registered s = record s {
    byz_reply_map =
        insert Bytes-discrete hash (map (λ client. (client.client_tag, client.sender)) clients)
          s.byz_reply_map;
    reply_map = insert Bytes-discrete hash clients s.reply_map;
  }

  module _ (s : ClientReplyHandler) (nonempty : is_empty hash ≡ false)
      (open_batch : s.must_cancel ≡ false)
      (no_responses : lookup Bytes-discrete hash s.byz_commit_reply_buf ≡ none) where
    -- The batch is first.
    early_batch :
        lookup Bytes-discrete hash s.crash_commit_reply_buf ≡ none
        → handle_batch hash clients s ≡ done (registered s)
    unfolding handle_batch maybe_clear_reply_buf clear_byz_reply_buf clear_crash_reply_buf
        registered
    early_batch h = rw nonempty (
        rw open_batch (rw (no_responses, clear_byz_reply_buf) (rw (h, clear_crash_reply_buf) refl)))

    -- The results are first.
    late_batch :
        (n : ℕ) (results : List (List OpResult))
        → lookup Bytes-discrete hash s.crash_commit_reply_buf ≡ some (n, results)
        → handle_batch hash clients s
          ≡ do_crash_commit_reply clients hash n results (record s {
            byz_reply_map =
                insert Bytes-discrete hash
                  (map (λ client. (client.client_tag, client.sender)) clients)
                  s.byz_reply_map;
            crash_commit_reply_buf = remove Bytes-discrete hash s.crash_commit_reply_buf;
            reply_map = remove Bytes-discrete hash (insert Bytes-discrete hash clients s.reply_map);
          })
    unfolding handle_batch maybe_clear_reply_buf clear_byz_reply_buf clear_crash_reply_buf
    late_batch n results h = rw nonempty (
        rw open_batch (
          rw (no_responses, clear_byz_reply_buf)
            (rw (h, clear_crash_reply_buf)
              (rw (lookup_inserted Bytes-discrete hash clients s.reply_map) refl))))

    -- The results find the clients.
    ack_after :
        (n : ℕ) (results : List (List OpResult))
        → crash_commit_block hash n results (registered s)
          ≡ do_crash_commit_reply clients hash n results (record s {
            byz_reply_map =
                insert Bytes-discrete hash
                  (map (λ client. (client.client_tag, client.sender)) clients)
                  s.byz_reply_map;
            reply_map = remove Bytes-discrete hash (insert Bytes-discrete hash clients s.reply_map);
          })
    unfolding crash_commit_block registered
    ack_after n results =
        rw (lookup_inserted Bytes-discrete hash clients s.reply_map, crash_commit_block) refl

-- The order in which the batch of a block and the acknowledgement of its crash commit come does not
-- matter. If the handler is not cancelling requests, and knows nothing of the block yet, both orders
-- end in the same state, with the same replies sent, or both panic.
pub worker-swaps :
    (hash : Bytes) (clients : List Client) (n : ℕ) (results : List (List OpResult))
    (s : ClientReplyHandler)
    → is_empty hash ≡ false
    → s.must_cancel ≡ false
    → lookup Bytes-discrete hash s.byz_commit_reply_buf ≡ none
    → lookup Bytes-discrete hash s.crash_commit_reply_buf ≡ none
    → lookup Bytes-discrete hash s.reply_map ≡ none
    → (worker (batch (some hash) clients) s >>= λ t.
        worker (crash_commit_ack ((hash, (n, results)) ∷ [])) t)
      ≡ (worker (crash_commit_ack ((hash, (n, results)) ∷ [])) s >>= λ t.
          worker (batch (some hash) clients) t)
unfolding worker crash_commit_acks crash_commit_block
worker-swaps hash clients n results s nonempty open_batch no_responses no_results no_clients =
    ap (λ m. m >>= λ t. crash_commit_block hash n results t >>= λ u. done u)
      (early_batch hash clients s nonempty open_batch no_responses no_results)
    ∙ >>=-done (crash_commit_block hash n results (registered hash clients s))
    ∙ ack_after hash clients s nonempty open_batch no_responses n results
    ∙ ap
        (λ buf. do_crash_commit_reply clients hash n results (record s {
          byz_reply_map =
              insert Bytes-discrete hash
                (map (λ client. (client.client_tag, client.sender)) clients) s.byz_reply_map;
          crash_commit_reply_buf = buf;
          reply_map = remove Bytes-discrete hash (insert Bytes-discrete hash clients s.reply_map);
        }))
        (sym (remove_inserted Bytes-discrete hash (n, results) s.crash_commit_reply_buf no_results))
    ∙ sym (
        late_batch hash clients buffered nonempty open_batch no_responses n results
          (lookup_inserted Bytes-discrete hash (n, results) s.crash_commit_reply_buf))
    ∙ ap (λ m. (m >>= λ u. done u) >>= λ t. handle_batch hash clients t) (sym stored_first)
  where
    buffered : ClientReplyHandler
    buffered = record s {
      crash_commit_reply_buf = insert Bytes-discrete hash (n, results) s.crash_commit_reply_buf;
    }

    stored_first : crash_commit_block hash n results s ≡ done buffered
    stored_first = rw (no_clients, crash_commit_block) refl
