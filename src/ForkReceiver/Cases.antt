-- ===== src/ForkReceiver/Cases.antt =====
-- The ways through the handler of a fork.
use powder_raft.Common.{
  subst, sym, ℕ, false, ltb, true, Option, some, List, none, refl, Bool, ◌≡◌, ◌≤◌, ◌||◌, [], arith,
  map_or, ◌∷◌, inl, ap, Bool-cases, bytes_eq, inr, ◌<◌, ◌∙◌, ◌==◌, ◌⊎◌,
}
use powder_raft.Crypto.{Crypto, get_parent_hash_in_proto_block_ser}
use powder_raft.ForkReceiver.{
  forward_parts, Answers, LastHash, ensure_common_prefix, check_views, send_nack, ForkReceiver,
  split_parts, Part, check_parent,
}
use powder_raft.Common.Outcome.{
  IfDone, done, panicked, failed, Outcome, out_of_fuel, IfDone-bind, ◌>>=◌, IfDone-after,
}
use powder_raft.ForkReceiver.Commands.{
  is_sender_legit, accept_fork, process_fork, process_legit, follow_prefix,
}
use powder_raft.Types.{AppendEntries, HalfSerializedBlock, Name}
use powder_raft.ForkReceiver.Checks.{
  Meaning, IsForeign, check_parent-Meaning, Looseness, MayLead, JoinsAll, Judged,
}
use powder_raft.Config.{get_leader_for_view}

module _ (Q : ForkReceiver → Type 0) (answers : Answers) (ae : AppendEntries) (sender : Name) where
  abbrev settled : ForkReceiver → ForkReceiver
  settled s = record s { waiting_on_nack_reply = false }

  pub accept_fork-cases :
      (blocks : List HalfSerializedBlock) (s : ForkReceiver)
      → (((top : ℕ) → check_views s.view blocks ≡ some top → top < ae.view)
          → IfDone Q (send_nack answers sender ae s))
      → (split_parts s.config_num [] blocks ≡ none → Q (record s { waiting_on_nack_reply = false }))
      → ((top : ℕ) (parts : List Part)
          → check_views s.view blocks ≡ some top
          → ltb top ae.view ≡ false
          → split_parts s.config_num [] blocks ≡ some parts
          → IfDone Q (forward_parts ae sender parts (record s { waiting_on_nack_reply = false })))
      → IfDone Q (accept_fork answers ae sender blocks s)
  unfolding accept_fork
  accept_fork-cases blocks s n d f = with_views (check_views s.view blocks) refl
    where
      with_parts :
          (top : ℕ) (o : Option (List Part))
          → check_views s.view blocks ≡ some top
          → ltb top ae.view ≡ false
          → split_parts s.config_num [] blocks ≡ o
          → IfDone Q (elim o [
            | none ↦ done (settled s)
            | some parts ↦ forward_parts ae sender parts (settled s)
          ])
      with_parts top none c l e = d e
      with_parts top (some parts) c l e = f top parts c l e

      reached :
          (top : ℕ) (b : Bool)
          → check_views s.view blocks ≡ some top
          → ltb top ae.view ≡ b
          → IfDone Q (elim b [
            | true ↦ send_nack answers sender ae s
            | false ↦ elim (split_parts s.config_num [] blocks) [
              | none ↦ done (settled s)
              | some parts ↦ forward_parts ae sender parts (settled s)
            ]
          ])
      reached top true c l = n λ t h. ground (arith, c, l, h)
      reached top false c l = with_parts top (split_parts s.config_num [] blocks) c l refl

      with_views :
          (o : Option ℕ)
          → check_views s.view blocks ≡ o
          → IfDone Q (elim o [
            | none ↦ send_nack answers sender ae s
            | some test_view ↦ elim (ltb test_view ae.view) [
              | true ↦ send_nack answers sender ae s
              | false ↦ elim (split_parts s.config_num [] blocks) [
                | none ↦ done (settled s)
                | some parts ↦ forward_parts ae sender parts (settled s)
              ]
            ]
          ])
      with_views none c = n λ t h. absurd (ground (arith, c, h))
      with_views (some top) c = reached top (ltb top ae.view) c refl

-- Only the hash of the last block is another.
pub record SameButHash (s s' : ForkReceiver) : Type 0 where
  pub same_view : s'.view ≡ s.view
  pub same_config : s'.config_num ≡ s.config_num
  pub same_buffer : s'.multipart_buffer ≡ s.multipart_buffer
  pub same_blocked : s'.blocked_on_multipart ≡ s.blocked_on_multipart
  pub same_sent : s'.sent ≡ s.sent

same_but_hash :
    (s : ForkReceiver) (h : LastHash) → SameButHash s (record s { last_ae_block_hash = h })
same_but_hash s h = record {
  same_view = refl;
  same_config = refl;
  same_buffer = refl;
  same_blocked = refl;
  same_sent = refl;
}

check_parent-SameButHash :
    (crypto : Crypto) (answers : Answers) (blocks : List HalfSerializedBlock) (s : ForkReceiver)
    → IfDone (λ p. SameButHash s p.1) (check_parent crypto answers blocks s)
unfolding check_parent
check_parent-SameButHash crypto answers [] s = same_but_hash s s.last_ae_block_hash
check_parent-SameButHash crypto answers (b ∷ bs) s =
    IfDone-after (λ p. SameButHash s p.1)
      (map_or panicked done (get_parent_hash_in_proto_block_ser b.serialized_body)) _
      (λ parent_hash. same_but_hash s _)

-- A fork that was compared with what is known: its blocks, and what the answer means.
pub record IsCompared (crypto : Crypto) (answers : Answers) (ae : AppendEntries) (s : ForkReceiver)
    (p : Bool × ForkReceiver) : Type 0 where
  pub blocks : List HalfSerializedBlock
  pub whole : ae.fork ≡ some blocks
  pub meaning : Meaning crypto answers s blocks p.0
  pub same : SameButHash s p.1

ensure_common_prefix-IsCompared :
    (crypto : Crypto) (answers : Answers) (ae : AppendEntries) (s : ForkReceiver)
    → IfDone (IsCompared crypto answers ae s) (ensure_common_prefix crypto answers ae s)
unfolding ensure_common_prefix
ensure_common_prefix-IsCompared crypto answers ae s = go ae.fork refl
  where
    both :
        (blocks : List HalfSerializedBlock) (o : Outcome (Bool × ForkReceiver))
        → ae.fork ≡ some blocks
        → IfDone (λ p. Meaning crypto answers s blocks p.0) o
        → IfDone (λ p. SameButHash s p.1) o
        → IfDone (IsCompared crypto answers ae s) o
    both blocks (done p) e m same = record { blocks = blocks; whole = e; meaning = m; same = same }
    both blocks panicked e m same = tt
    both blocks failed e m same = tt
    both blocks out_of_fuel e m same = tt

    go :
        (o : Option (List HalfSerializedBlock))
        → ae.fork ≡ o
        → IfDone
            (IsCompared crypto answers ae s)
            (elim o [ none ↦ panicked | some blocks ↦ check_parent crypto answers blocks s ])
    go none e = tt
    go (some blocks) e =
        both blocks (check_parent crypto answers blocks s) e
          (check_parent-Meaning crypto answers blocks s)
          (check_parent-SameButHash crypto answers blocks s)

module _ (Q : ForkReceiver → Type 0) (crypto : Crypto) (answers : Answers) (ae : AppendEntries)
    (sender : Name) where
  -- Whether the sender is the leader of the message's view, for a message of the own configuration.
  is_sender_legit-Judged :
      (s : ForkReceiver) → IfDone (Judged ae sender s) (is_sender_legit ae sender s)
  unfolding is_sender_legit
  is_sender_legit-Judged s = elim (Bool-cases (ae.config_num == s.config_num)) [
    | inl e ↦ rw e (go (ground (arith, e)) (get_leader_for_view s.config ae.view) refl)
    | inr e ↦ rw e λ same. absurd (ground (arith, e, same))
  ]
    where
      judge :
          (leader : Name)
          → ae.config_num ≡ s.config_num
          → get_leader_for_view s.config ae.view ≡ some leader
          → (legit : Bool) → bytes_eq leader sender ≡ legit
          → Judged ae sender s legit
      judge leader same l true e =
          let lead : leader ≡ sender = ground (arith, e) in λ _. l ∙ ap some lead
      judge leader same l false e = record {
        leader = leader;
        same_config = same;
        leads = l;
        other = λ h. ground (arith, e, h);
      }

      go :
          ae.config_num ≡ s.config_num
          → (o : Option Name) → get_leader_for_view s.config ae.view ≡ o
          → IfDone
              (Judged ae sender s)
              (map_or panicked done o >>= λ leader. done (bytes_eq leader sender))
      go same none l = tt
      go same (some leader) l = judge leader same l (bytes_eq leader sender) refl

  -- A fork that is old or from the wrong sender changes nothing; another is compared with what is
  -- known, and then refused or looked at further.
  pub process_fork-cases :
      (s : ForkReceiver)
      → ((ae.view < s.view) ⊎ (ae.config_num < s.config_num) → Q s)
      → (IsForeign ae sender s → Q s)
      → (s.view ≤ ae.view
          → MayLead ae sender s
          → (s' : ForkReceiver) → SameButHash s s'
          → (blocks : List HalfSerializedBlock) → ae.fork ≡ some blocks
          → (Looseness crypto answers s blocks → IfDone Q (send_nack answers sender ae s'))
            × (JoinsAll crypto answers s blocks
                → IfDone Q (accept_fork answers ae sender blocks s')))
      → IfDone Q (process_fork crypto answers ae sender s)
  unfolding process_fork process_legit follow_prefix
  process_fork-cases s old foreign f =
      older (ltb ae.view s.view || ltb ae.config_num s.config_num) refl
    where
      follow :
          s.view ≤ ae.view
          → MayLead ae sender s
          → (p : Bool × ForkReceiver) → IsCompared crypto answers ae s p
          → IfDone Q (follow_prefix answers ae sender p)
      follow le lead (false, s') c = (f le lead s' c.same c.blocks c.whole).0 c.meaning
      follow le lead (true, s') c =
          subst
            (λ o.
              IfDone Q
                (elim o [ none ↦ done s' | some blocks ↦ accept_fork answers ae sender blocks s' ]))
            (sym c.whole) ((f le lead s' c.same c.blocks c.whole).1 c.meaning)

      legitimate :
          s.view ≤ ae.view
          → (legit : Bool) → Judged ae sender s legit
          → IfDone Q (process_legit crypto answers ae sender legit s)
      legitimate le true lead =
          IfDone-bind (IsCompared crypto answers ae s) Q (ensure_common_prefix crypto answers ae s)
            _ (ensure_common_prefix-IsCompared crypto answers ae s) (follow le lead)
      legitimate le false other = foreign other

      older :
          (b : Bool)
          → (ltb ae.view s.view || ltb ae.config_num s.config_num) ≡ b
          → IfDone Q (elim b [
            | true ↦ done s
            | false ↦ is_sender_legit ae sender s >>= λ legit.
                process_legit crypto answers ae sender legit s
          ])
      older true e = old (ground (arith, e))
      older false e =
          IfDone-bind (Judged ae sender s) Q (is_sender_legit ae sender s) _
            (is_sender_legit-Judged s) (legitimate (ground (arith, e)))
