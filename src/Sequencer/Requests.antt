-- ===== src/Sequencer/Requests.antt =====
-- What every block that the sequencer hands on satisfies.
use powder_raft.Common.{
  ℕ, arith, leb, List, if_both, inl, false, Bool-cases, retain, All, All-append, true, refl, inr,
  ◌≡◌, ◌≤◌, ◌∙◌, ◌+◌, ◌∷◌, ◌==◌, ◌⊎◌, [], Bool, subst, sym, not, ◌++◌, ◌&&◌, ◌||◌, if◌then◌else◌,
  sub64,
}
use powder_raft.Sequencer.{
  reply_empty, Command, handle_new_batch, prepare_block, new_view_message, no_hash, add_qc, hash_of,
  ParentHash, ControlCommand, Request, Replies, new_unstable_view, Event, must_sign_block,
  command_arrives, worker, new, handle_control_command, Sequencer, immediate, add_qcs,
  view_stabilised, broadcast, reply_with_hash, qcs_arrive, batch_arrives, signature_tick,
  channel_closed,
}
use powder_raft.Types.{ForkValidation, QuorumCertificate, Transaction}
use powder_raft.Config.{Config, i_am_leader}

-- The number of a block fits its parent.
abbrev pub Follows : ParentHash → ℕ → Type 0
Follows no_hash n = n ≡ 1
Follows (immediate hsh) n = Unit {0}
Follows (hash_of b) n = n ≡ b.n + 1

-- Certificates stand in signed blocks only, and are of the block's own view. A block of a view that
-- is not stable is signed.
pub record IsFine (r : Request) : Type 0 where
  pub numbered : Follows r.parent_hash_rx r.block.n
  pub unsigned : r.must_sign ≡ false → r.block.qc ≡ []
  pub same_view : All (λ qc. qc.view ≡ r.block.view) r.block.qc
  pub opening : r.block.view_is_stable ≡ false → r.must_sign ≡ true

abbrev pub FineCommand : Command → Type 0
FineCommand (prepare_block r) = IsFine r
FineCommand (reply_with_hash n replies) = Unit {0}
FineCommand (reply_empty replies) = Unit {0}
FineCommand (broadcast n) = Unit {0}

pub record IsValid (s : Sequencer) : Type 0 where
  pub current : All (λ qc. qc.view ≡ s.view) s.current_qc_list
  pub parent : Follows s.parent_hash_rx (s.seq_num + 1)
  pub fine : All FineCommand s.sent

-- What taking certificates leaves alone.
record SamePlace (s s' : Sequencer) : Type 0 where
  same_config : s'.config ≡ s.config
  same_view : s'.view ≡ s.view
  same_stable : s'.view_is_stable ≡ s.view_is_stable

place_trans : (a b c : Sequencer) → SamePlace a b → SamePlace b c → SamePlace a c
place_trans a b c p q = record {
  same_config = q.same_config ∙ p.same_config;
  same_view = q.same_view ∙ p.same_view;
  same_stable = q.same_stable ∙ p.same_stable;
}

add_qc-IsValid :
    (qc : QuorumCertificate) (s : Sequencer)
    → IsValid s
    → IsValid (add_qc qc s) × SamePlace s (add_qc qc s)
unfolding add_qc
add_qc-IsValid qc s v = go (Bool-cases (qc.view == s.view))
  where
    go :
        ((qc.view == s.view) ≡ true) ⊎ ((qc.view == s.view) ≡ false)
        → IsValid (add_qc qc s) × SamePlace s (add_qc qc s)
    go (inl e) =
        rw (add_qc, e)
          (
            record {
              current =
                  All-append (λ q. q.view ≡ s.view) s.current_qc_list (qc ∷ []) v.current
                    (ground (arith, e), tt);
              parent = v.parent;
              fine = v.fine;
            },
            record { same_config = refl; same_view = refl; same_stable = refl },
          )
    go (inr e) =
        rw (add_qc, e) (v, record { same_config = refl; same_view = refl; same_stable = refl })

add_qcs-IsValid :
    (qcs : List QuorumCertificate) (s : Sequencer)
    → IsValid s
    → IsValid (add_qcs qcs s) × SamePlace s (add_qcs qcs s)
unfolding add_qcs
add_qcs-IsValid [] s v = (v, record { same_config = refl; same_view = refl; same_stable = refl })
add_qcs-IsValid (qc ∷ qcs) s v =
    let (valid, same) = add_qc-IsValid qc s v in
    let (valid', same') = add_qcs-IsValid qcs (add_qc qc s) valid in
    (valid', place_trans _ _ _ same same')

opens :
    (forced late leader stable : Bool)
    → leader ≡ true
    → stable ≡ false
    → (forced || late || (leader && not stable)) ≡ true
opens forced late leader stable l s = ground (arith, l, s)

must_sign_new_view :
    (n : ℕ) (s : Sequencer)
    → (s.view_is_stable ≡ true) ⊎ (i_am_leader s.config s.view ≡ true)
    → s.view_is_stable ≡ false
    → must_sign_block n s ≡ true
unfolding must_sign_block
must_sign_new_view n s (inl e) h = absurd (ground (arith, e, h))
must_sign_new_view n s (inr e) h =
    opens s.force_sign_next_batch
      (leb s.config.signature_max_delay_blocks (sub64 n s.last_signed_seq_num))
      (i_am_leader s.config s.view) s.view_is_stable e h

handle_new_batch-IsValid :
    (batch : List Transaction) (replies : Replies) (fork_validation : List ForkValidation)
    (s : Sequencer)
    → (s.view_is_stable ≡ true) ⊎ (i_am_leader s.config s.view ≡ true)
    → IsValid s
    → IsValid (handle_new_batch batch replies fork_validation s)
unfolding handle_new_batch
handle_new_batch-IsValid batch replies fork_validation s l v = record {
  current =
      if_both (All (λ qc. qc.view ≡ s.view)) (must_sign_block (s.seq_num + 1) s) []
        s.current_qc_list tt v.current;
  parent = refl;
  fine = All-append FineCommand s.sent _ v.fine (
    record {
      numbered = v.parent;
      unsigned = λ h. rw h refl;
      same_view =
          if_both (All (λ qc. qc.view ≡ s.view)) (must_sign_block (s.seq_num + 1) s)
            s.current_qc_list [] v.current tt;
      opening = must_sign_new_view (s.seq_num + 1) s l;
    },
    (tt, (tt, tt)),
  );
}

-- A view that rises leaves only certificates of the new one.
retain_view :
    (old view : ℕ) (qcs : List QuorumCertificate)
    → old ≤ view
    → All (λ qc. qc.view ≡ old) qcs
    → All (λ qc. qc.view ≡ view) (retain (λ e. leb view e.view) qcs)
retain_view old view [] h a = tt
retain_view old view (qc ∷ qcs) h a = ground (arith, a.0, retain_view old view qcs h a.1)

retain_equal :
    (view : ℕ) (qcs : List QuorumCertificate)
    → All (λ qc. qc.view ≡ view) (retain (λ e. e.view == view) qcs)
retain_equal view [] = tt
retain_equal view (qc ∷ qcs) = ground (arith, retain_equal view qcs)

-- The view of a command is not below the sequencer's.
abbrev pub Rises : ControlCommand → ℕ → Type 0
Rises (new_unstable_view v c) view = view ≤ v
Rises (view_stabilised v c) view = view ≤ v
Rises (new_view_message v c fork_validation hsh n) view = view ≤ v

handle_control_command-IsValid :
    (cmd : ControlCommand) (s : Sequencer)
    → Rises cmd s.view
    → IsValid s
    → IsValid (handle_control_command cmd s)
unfolding handle_control_command
handle_control_command-IsValid (new_unstable_view v c) s r i = record {
  current = retain_view s.view v s.current_qc_list r i.current;
  parent = i.parent;
  fine = i.fine;
}
handle_control_command-IsValid (view_stabilised v c) s r i = record {
  current = retain_view s.view v s.current_qc_list r i.current;
  parent = i.parent;
  fine = i.fine;
}
handle_control_command-IsValid (new_view_message v c fork_validation hsh n) s r i =
    go (i_am_leader s.config v) refl
  where
    moved : ℕ → ParentHash → Sequencer
    moved seq_num parent_hash_rx = record s {
      view = v;
      config_num = c;
      view_is_stable = false;
      current_qc_list = retain (λ e. e.view == v) s.current_qc_list;
      last_qc_n_seen = n;
      blocks_proposed_in_this_view = 0;
      seq_num = seq_num;
      parent_hash_rx = parent_hash_rx;
    }

    moved-IsValid :
        (seq_num : ℕ) (p : ParentHash) → Follows p (seq_num + 1) → IsValid (moved seq_num p)
    moved-IsValid seq_num p f = record {
      current = retain_equal v s.current_qc_list;
      parent = f;
      fine = i.fine;
    }

    go :
        (leader : Bool)
        → i_am_leader s.config v ≡ leader
        → IsValid (
            if leader
            then handle_new_batch [] [] fork_validation (moved n (immediate hsh))
            else moved s.seq_num s.parent_hash_rx)
    go true e =
        handle_new_batch-IsValid [] [] fork_validation (moved n (immediate hsh)) (inr e)
          (moved-IsValid n (immediate hsh) tt)
    go false e = moved-IsValid s.seq_num s.parent_hash_rx i.parent

abbrev pub RisesIn : Event → ℕ → Type 0
RisesIn (command_arrives cmd) view = Rises cmd view
RisesIn _ view = Unit {0}

-- The states that a run reaches whose commands bring no lower view.
pub data Reaches (config : Config) : Sequencer → Type 0 where
  start : Reaches config (new config)
  turn :
      (waiting : List QuorumCertificate) (event : Event) (s : Sequencer)
      → Reaches config s
      → RisesIn event s.view
      → Reaches config (worker waiting event s)

listening : (stable leader : Bool) → (stable && leader) ≡ true → (stable ≡ true)
listening stable leader h = ground (arith, h)

worker-IsValid :
    (waiting : List QuorumCertificate) (event : Event) (s : Sequencer)
    → RisesIn event s.view
    → IsValid s
    → IsValid (worker waiting event s)
unfolding worker
worker-IsValid waiting event s r i = go event r (add_qcs-IsValid waiting s i)
  where
    listens : Bool
    listens = s.view_is_stable && i_am_leader s.config s.view

    go :
        (e : Event)
        → RisesIn e s.view
        → IsValid (add_qcs waiting s) × SamePlace s (add_qcs waiting s)
        → IsValid (worker waiting e s)
    go (qcs_arrive qcs) r (v, p) = (add_qcs-IsValid qcs (add_qcs waiting s) v).0
    go signature_tick r (v, p) =
        if_both IsValid listens _ _
          (record { current = v.current; parent = v.parent; fine = v.fine }) v
    go (batch_arrives batch replies) r (v, p) = batched listens refl
      where
        counted : Sequencer
        counted = record (add_qcs waiting s) {
          blocks_proposed_in_this_view = (add_qcs waiting s).blocks_proposed_in_this_view + 1;
        }

        batched :
            (b : Bool)
            → listens ≡ b
            → IsValid (
                if b
                then handle_new_batch batch replies [] counted
                else record (add_qcs waiting s) {
                  sent = (add_qcs waiting s).sent ++ reply_empty replies ∷ [];
                })
        batched true e =
            handle_new_batch-IsValid batch replies [] counted
              (inl (p.same_stable ∙ listening s.view_is_stable _ e))
              (record { current = v.current; parent = v.parent; fine = v.fine })
        batched false e = record {
          current = v.current;
          parent = v.parent;
          fine = All-append FineCommand (add_qcs waiting s).sent _ v.fine (tt, tt);
        }
    go (command_arrives cmd) r (v, p) =
        handle_control_command-IsValid cmd (add_qcs waiting s)
          (subst (Rises cmd) (sym p.same_view) r) v
    go channel_closed r (v, p) = v

-- In every run of the sequencer whose commands bring no lower view: each block it hands on has the
-- number after its parent's, if the parent is the last block it handed on, has certificates only if
-- it is signed and then of its own view, and is signed if its view is not stable; the certificates
-- that wait are of the current view.
pub Reaches-IsValid : (config : Config) (s : Sequencer) → Reaches config s → IsValid s
unfolding new
Reaches-IsValid config _ start = record { current = tt; parent = refl; fine = tt }
Reaches-IsValid config _ (turn waiting event s p r) =
    worker-IsValid waiting event s r (Reaches-IsValid config s p)
