-- ===== src/Staging/Worker/Handlers.antt =====
-- The handlers of the select loop: what they do to the view and to the Byzantine commit index.
use powder_raft.Common.{
  ℕ, zero, suc, ◌+◌, ◌≤◌, refl, Bool, true, false, List, [], ◌∷◌, Option, none, some, arith, leb,
  Bool-cases, inl, inr, back, ltb, ◌==◌, not, ◌&&◌, ◌||◌, if◌then◌else◌, Option-cases, if_both,
}
use powder_raft.Common.Outcome.{failed, IfDone, IfDone-bind}
use powder_raft.Types.{CachedBlock, QuorumCertificate, Vote, Name}
use powder_raft.Config.{Config, i_am_leader}
use powder_raft.Crypto.{Crypto}
use powder_raft.Staging.State.{Staging, PendingBlock, AppendEntriesStats}
use powder_raft.Staging.Commit.{maybe_byzantine_commit, check_continuity, rollback, do_crash_commit}
use powder_raft.Staging.ViewChange.{enter_view, maybe_update_view, handle_view_change_timer_tick}
use powder_raft.Staging.Votes.{
  verify_and_process_vote, process_vote, await_all, vote_on_last_block_for_self,
  send_vote_on_last_block_to_leader, all_fit, is_well_formed, vote_on, my_sigs,
}
use powder_raft.Staging.Blocks.{
  process_block, accept_block, make_way, follow_stability, push_block, finish_as_leader,
  finish_as_follower, use_block_qcs, stabilize_unless, check_gap, reply_vote, jump, jump_as_leader,
  jump_as_follower,
}
use powder_raft.Staging.Worker.Advance.{
  Advances, Advances-trans, Advances-same, Advances-then, maybe_byzantine_commit-Advances,
  do_crash_commit-Advances, maybe_stabilize_view-Advances, process_vote-Advances,
}

pub maybe_update_view-Advances :
    (cfg : Config) (crypto : Crypto) (v c : ℕ) (s : Staging)
    → Advances s (maybe_update_view cfg crypto v c s)
unfolding maybe_update_view enter_view
maybe_update_view-Advances cfg crypto v c s = elim (Bool-cases (leb v s.view)) [
  | inl e ↦ rw e (Advances-same s s refl refl)
  | inr e ↦ rw e (record { view = ground arith; bci = omega arith })
]

pub tick-Advances :
    (cfg : Config) (crypto : Crypto) (enough : Bool) (s : Staging)
    → Advances s (handle_view_change_timer_tick cfg crypto enough s)
unfolding handle_view_change_timer_tick
tick-Advances cfg crypto enough s =
    let a = maybe_update_view-Advances cfg crypto (s.view + 1) s.config_num s in
    elim (Bool-cases (s.view == 0 || s.view_is_stable)) [
      | inl e ↦ rw e a
      | inr e ↦ rw e (elim (Bool-cases (not enough)) [
        | inl e' ↦ rw e' (Advances-same s s refl refl)
        | inr e' ↦ rw e' (elim (Bool-cases (leb 100 s.vc_retry_num)) [
          | inl e'' ↦ rw e'' (record { view = a.view; bci = a.bci })
          | inr e'' ↦ rw e'' (Advances-same s _ refl refl)
        ])
      ])
    ]

pub vote-Advances :
    (cfg : Config) (crypto : Crypto) (sender : Name) (v : Vote) (s : Staging)
    → IfDone (Advances s) (verify_and_process_vote cfg crypto sender v s)
unfolding verify_and_process_vote
vote-Advances cfg crypto sender v s =
    if_both (IfDone (Advances s))
      (not (all_fit (λ p e. is_well_formed e) s.pending_blocks v.sig_array)) _ _
      (Advances-same s s refl refl)
      (if_both (IfDone (Advances s))
        (not
          (all_fit (λ p e. crypto.verify p.block_hash sender e.sig) s.pending_blocks v.sig_array))
        _ _ (Advances-same s s refl refl) (process_vote-Advances cfg sender v s))

self-Advances :
    (cfg : Config) (crypto : Crypto) (ack : ℕ) (s : Staging)
    → IfDone (Advances s) (vote_on_last_block_for_self cfg crypto ack s)
unfolding vote_on_last_block_for_self
self-Advances cfg crypto ack s = go (back s.pending_blocks)
  where
    go :
        (o : Option PendingBlock)
        → IfDone (Advances s) (elim o [
          | none ↦ failed
          | some last ↦
              process_vote cfg cfg.name
                (vote_on (my_sigs crypto last) last (await_all ack s))
                (await_all ack s)
        ])
    go none = tt
    go (some last) =
        Advances-then s (await_all ack s) _ (Advances-same s _ refl refl)
          (process_vote-Advances cfg cfg.name _ (await_all ack s))

send-Advances :
    (cfg : Config) (crypto : Crypto) (ack : ℕ) (s : Staging)
    → IfDone (Advances s) (send_vote_on_last_block_to_leader cfg crypto ack s)
unfolding send_vote_on_last_block_to_leader
send-Advances cfg crypto ack s = elim (Option-cases (back s.pending_blocks)) [
  | inl e ↦ rw (e, IfDone) tt
  | inr (last, e) ↦ rw (e, IfDone) (Advances-same s _ refl refl)
]

use_block_qcs-Advances :
    (cfg : Config) (stable : Bool) (qcs : List QuorumCertificate) (s : Staging)
    → IfDone (Advances s) (use_block_qcs cfg stable qcs s)
unfolding use_block_qcs
use_block_qcs-Advances cfg stable [] s = Advances-same s s refl refl
use_block_qcs-Advances cfg stable (qc ∷ qcs) s =
    IfDone-bind (Advances s) (Advances s) (stabilize_unless cfg stable qc s) _ (go stable) (λ s' a.
      Advances-then s (maybe_byzantine_commit cfg qc s') _
        (Advances-trans s s' _ a (maybe_byzantine_commit-Advances cfg qc s'))
        (use_block_qcs-Advances cfg stable qcs (maybe_byzantine_commit cfg qc s')))
  where
    go : (b : Bool) → IfDone (Advances s) (stabilize_unless cfg b qc s)
    go true = Advances-same s s refl refl
    go false = maybe_stabilize_view-Advances cfg qc s

leader-Advances :
    (cfg : Config) (crypto : Crypto) (ack : ℕ) (final : Bool) (s : Staging)
    → IfDone (Advances s) (finish_as_leader cfg crypto ack final s)
unfolding finish_as_leader
leader-Advances cfg crypto ack true s = self-Advances cfg crypto ack s
leader-Advances cfg crypto ack false s = Advances-same s _ refl refl

reply-Advances :
    (cfg : Config) (crypto : Crypto) (ack : ℕ) (final : Bool) (s : Staging)
    → IfDone (Advances s) (reply_vote cfg crypto ack final s)
reply-Advances cfg crypto ack true s = send-Advances cfg crypto ack s
reply-Advances cfg crypto ack false s = Advances-same s _ refl refl

check_gap-Advances :
    (cfg : Config) (stable : Bool) (s : Staging) → Advances s (check_gap cfg stable s)
unfolding check_gap
check_gap-Advances cfg stable s =
    elim (Bool-cases (
      stable
      && ltb cfg.commit_index_gap_soft s.ae_seen_in_this_view
      && ltb (s.bci + cfg.commit_index_gap_hard) s.ci)) [
        | inl e ↦ rw e (Advances-same s _ refl refl)
        | inr e ↦ rw e (Advances-same s s refl refl)
      ]

follower-Advances :
    (cfg : Config) (crypto : Crypto) (b : CachedBlock) (ack : ℕ) (st : AppendEntriesStats)
    (final : Bool) (s : Staging)
    → IfDone (Advances s) (finish_as_follower cfg crypto b ack st final s)
unfolding finish_as_follower
follower-Advances cfg crypto b ack st final s =
    let committed = if final then do_crash_commit s.ci st.ci s else s in
    IfDone-bind (Advances s) (Advances s) (use_block_qcs cfg s.view_is_stable b.qc committed) _
      (Advances-then s committed _
        (if_both (Advances s) final _ _ (do_crash_commit-Advances s.ci st.ci s)
          (Advances-same s s refl refl))
        (use_block_qcs-Advances cfg s.view_is_stable b.qc committed))
      (λ s' a.
        IfDone-bind (Advances s) (Advances s) (reply_vote cfg crypto ack final s') _
          (Advances-then s s' _ a (reply-Advances cfg crypto ack final s'))
          (λ s'' c. Advances-trans s s'' _ c (check_gap-Advances cfg s.view_is_stable s'')))

make_way-Advances :
    (b : CachedBlock) (st : AppendEntriesStats) (s : Staging) → Advances s (make_way b st s)
unfolding make_way follow_stability rollback
make_way-Advances b st s =
    let same : Advances s (follow_stability st s) =
      if_both (Advances s) (s.view_is_stable || not st.view_is_stable) _ _
        (Advances-same s _ refl refl) (Advances-same s s refl refl) in
    if_both (Advances s) (follow_stability st s).view_is_stable _ _ same
      (record { view = same.view; bci = same.bci })

-- What comes after the continuity check.
joined-Advances :
    (cfg : Config) (crypto : Crypto) (leads : Bool) (b : CachedBlock) (ack : ℕ)
    (st : AppendEntriesStats) (final : Bool) (s : Staging)
    → IfDone (Advances s) (elim leads [
      | true ↦ finish_as_leader cfg crypto ack final (push_block b final s)
      | false ↦ finish_as_follower cfg crypto b ack st final (push_block b final s)
    ])
unfolding push_block
joined-Advances cfg crypto true b ack st final s =
    Advances-then s (push_block b final s) _ (Advances-same s _ refl refl)
      (leader-Advances cfg crypto ack final (push_block b final s))
joined-Advances cfg crypto false b ack st final s =
    Advances-then s (push_block b final s) _ (Advances-same s _ refl refl)
      (follower-Advances cfg crypto b ack st final (push_block b final s))

accept-Advances :
    (cfg : Config) (crypto : Crypto) (leads : Bool) (b : CachedBlock) (ack : ℕ)
    (st : AppendEntriesStats) (final : Bool) (s : Staging)
    → IfDone (Advances s) (accept_block cfg crypto leads b ack st final s)
unfolding accept_block
accept-Advances cfg crypto leads b ack st final s =
    let way = make_way-Advances b st s in
    Advances-then s (make_way b st s) _ way
      (elim (Bool-cases (check_continuity b (make_way b st s))) [
        | inr e ↦ rw (e, IfDone) (Advances-same _ _ refl refl)
        | inl e ↦ rw (e, IfDone) (joined-Advances cfg crypto leads b ack st final (make_way b st s))
      ])

jump-Advances :
    (leads : Bool) (b : CachedBlock) (st : AppendEntriesStats) (s : Staging)
    → s.view ≤ st.view
    → Advances s (jump leads b st s)
unfolding jump jump_as_leader jump_as_follower rollback
jump-Advances true b st s le = record { view = le; bci = omega arith }
jump-Advances false b st s le = record { view = le; bci = omega arith }

pub block-Advances :
    (fuel : ℕ) (cfg : Config) (crypto : Crypto) (leads : Bool) (b : CachedBlock) (ack : ℕ)
    (st : AppendEntriesStats) (final : Bool) (s : Staging)
    → IfDone (Advances s) (process_block fuel cfg crypto leads b ack st final s)
unfolding process_block
block-Advances zero cfg crypto leads b ack st final s = tt
block-Advances (suc fuel) cfg crypto leads b ack st final s =
    elim (Bool-cases (ltb st.view s.view)) [
      | inl e ↦ rw (e, IfDone) (Advances-same s s refl refl)
      | inr e ↦
          rw (e, IfDone)
            (elim (Bool-cases (st.view == s.view)) [
              | inl e' ↦ rw (e', IfDone) (accept-Advances cfg crypto leads b ack st final s)
              | inr e' ↦
                  rw (e', IfDone)
                    (Advances-then s (jump leads b st s) _
                      (jump-Advances leads b st s (ground arith))
                      (block-Advances fuel cfg crypto (i_am_leader cfg (jump leads b st s).view) b
                        ack st final (jump leads b st s)))
            ])
    ]
