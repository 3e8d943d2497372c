-- ===== src/Staging/Worker/Progress.antt =====
-- New views and the select loop: what they do to the view and to the Byzantine commit index.
use powder_raft.Common.{
  ℕ, refl, List, Bool-cases, inl, inr, ltb, ◌==◌, not, ◌||◌, front, lookup, if_both,
}
use powder_raft.Common.Outcome.{IfDone, IfDone-bind, IfDone-after}
use powder_raft.Types.{ViewChange, ForkValidation}
use powder_raft.Config.{
  Config, i_am_leader, byzantine_liveness_threshold, fast_path_selection_threshold,
}
use powder_raft.Crypto.{Crypto}
use powder_raft.Staging.State.{Staging}
use powder_raft.Staging.NewView.{
  Forks, name_of, propose_new_view, retain_for_new_view, apply_fork_choice_rule, send_blocks,
  unwrap, verified_hashes, checked_parent, vc_to_stats, stats_to_validation,
  check_byz_commit_invariant,
}
use powder_raft.Staging.Worker.{
  Event, tick, block, vote, pacemaker_update_view, pacemaker_new_view_forks, closed, worker,
}
use powder_raft.Staging.Worker.Advance.{Advances, Advances-trans, Advances-same}
use powder_raft.ForkChoice.{ForkStat, fork_choice_filter, SenderType-discrete}
use powder_raft.Staging.Worker.Handlers.{
  maybe_update_view-Advances, tick-Advances, vote-Advances, block-Advances,
}

sent_blocks-Advances :
    (cfg : Config) (crypto : Crypto) (vc : ViewChange) (s : Staging)
    → IfDone (λ r. Advances s r.1) (send_blocks cfg crypto vc s)
unfolding send_blocks
sent_blocks-Advances cfg crypto vc s =
    let Q : ForkStat × Staging → Type 0 = λ r. Advances s r.1 in
    IfDone-after Q (unwrap vc.fork) _ (λ blocks.
      IfDone-after Q (verified_hashes crypto (byzantine_liveness_threshold cfg) blocks) _ (λ hashes.
        IfDone-after Q (checked_parent blocks) _ (λ parent. Advances-same s _ refl refl)))

chosen-Advances :
    (cfg : Config) (crypto : Crypto) (forks : Forks) (s : Staging)
    → IfDone (λ r. Advances s r.2) (apply_fork_choice_rule cfg crypto forks s)
unfolding apply_fork_choice_rule
chosen-Advances cfg crypto forks s =
    let Q : ForkStat × List ForkValidation × Staging → Type 0 = λ r. Advances s r.2 in
    IfDone-after Q (vc_to_stats crypto forks) _ (λ stats.
      IfDone-after Q (stats_to_validation forks stats) _ (λ validation.
        IfDone-after Q (fork_choice_filter (fast_path_selection_threshold cfg) stats) _ (λ fit.
          IfDone-after Q (unwrap (front fit)) _ (λ sender.
            IfDone-after Q (unwrap (lookup SenderType-discrete sender forks)) _ (λ vc.
              IfDone-bind (λ r. Advances s r.1) Q (send_blocks cfg crypto vc s) _
                (sent_blocks-Advances cfg crypto vc s) (λ r a. a))))))

retained-Advances : (n : ℕ) (s : Staging) → Advances s (retain_for_new_view n s)
unfolding retain_for_new_view
retained-Advances n s = elim (Bool-cases (ltb n s.ci)) [
  | inl e ↦ rw e (Advances-same s _ refl refl)
  | inr e ↦ rw e (Advances-same s _ refl refl)
]

-- The new leader's proposal changes neither.
proposal-Advances :
    (cfg : Config) (crypto : Crypto) (v c : ℕ) (forks : Forks) (s : Staging)
    → IfDone (Advances s) (propose_new_view cfg crypto v c forks s)
unfolding propose_new_view
proposal-Advances cfg crypto v c forks s =
    if_both (IfDone (Advances s)) (not (v == s.view) || not (c == s.config_num)) _ _
      (Advances-same s s refl refl)
      (if_both (IfDone (Advances s)) (s.view_is_stable || not (i_am_leader cfg s.view)) _ _
        (Advances-same s s refl refl)
        (IfDone-bind (λ r. Advances s r.2) (Advances s) (apply_fork_choice_rule cfg crypto forks s)
          _ (chosen-Advances cfg crypto forks s)
          (λ r a. IfDone-after (Advances s) (check_byz_commit_invariant r.0 r.2) _ (λ checked.
            IfDone-after (Advances s) (unwrap checked) _ (λ n.
              let b = retained-Advances n r.2 in
              let t = Advances-trans s r.2 (retain_for_new_view n r.2) a b in
              record { view = t.view; bci = t.bci })))))

-- Whatever event the select loop handles, if the handler returns, the view and the Byzantine commit
-- index are at least what they were before.
pub worker-Advances :
    (cfg : Config) (crypto : Crypto) (e : Event) (s : Staging)
    → IfDone (Advances s) (worker cfg crypto e s)
unfolding worker
worker-Advances cfg crypto (tick enough) s = tick-Advances cfg crypto enough s
worker-Advances cfg crypto (block b ack st final) s =
    block-Advances 2 cfg crypto (i_am_leader cfg s.view) b ack st final s
worker-Advances cfg crypto (vote sender v) s = elim (Bool-cases (i_am_leader cfg s.view)) [
  | inl e ↦ rw (e, IfDone) (vote-Advances cfg crypto (name_of sender) v s)
  | inr e ↦ rw (e, IfDone) (Advances-same s s refl refl)
]
worker-Advances cfg crypto (pacemaker_update_view v c) s =
    maybe_update_view-Advances cfg crypto v c s
worker-Advances cfg crypto (pacemaker_new_view_forks v c forks) s =
    proposal-Advances cfg crypto v c forks s
worker-Advances cfg crypto closed s = tt
