-- ===== src/Staging/Worker/Advance.antt =====
-- Views and Byzantine commit indices never go down, whatever event comes.
use powder_raft.Common.{
  ℕ, ◌≤◌, ◌≡◌, refl, Bool, true, false, List, [], ◌∷◌, Option, none, some, arith, leb, Bool-cases,
  inl, inr, back, ◌==◌, not, if◌then◌else◌,
}
use powder_raft.Common.Outcome.{Outcome, done, IfDone, IfDone-bind, panicked, failed, out_of_fuel}
use powder_raft.Types.{QuorumCertificate, Vote, Name}
use powder_raft.Config.{Config, i_am_leader, get_leader_for_view}
use powder_raft.Staging.State.{
  Staging, emit, send_qc, view_stabilised, make_leader, stop_cancelling, PendingBlock,
}
use powder_raft.Staging.Commit.{
  maybe_byzantine_commit, note_qc, do_byzantine_commit, do_crash_commit, maybe_crash_commit,
  maybe_update_last_qc,
}
use powder_raft.Staging.Commit.TwoHop.{maybe_byzantine_commit-Reason}
use powder_raft.Staging.ViewChange.{maybe_stabilize_view}
use powder_raft.Staging.Votes.{
  use_qcs, maybe_create_qcs, process_vote, maybe_stabilize, in_range, vote_blocks,
}

pub record Advances (s s' : Staging) : Type 0 where
  pub view : s.view ≤ s'.view
  pub bci : s.bci ≤ s'.bci

pub Advances-trans : (s s' s'' : Staging) → Advances s s' → Advances s' s'' → Advances s s''
Advances-trans s s' s'' a b = record {
  view = omega (arith, a.view, b.view);
  bci = omega (arith, a.bci, b.bci);
}

pub Advances-same : (s s' : Staging) → s.view ≡ s'.view → s.bci ≡ s'.bci → Advances s s'
Advances-same s s' v b = record { view = omega (arith, v); bci = omega (arith, b) }

pub Advances-then :
    (s s' : Staging) (o : Outcome Staging)
    → Advances s s'
    → IfDone (Advances s') o
    → IfDone (Advances s) o
Advances-then s s' (done a) x y = Advances-trans s s' a x y
Advances-then s s' panicked x y = tt
Advances-then s s' failed x y = tt
Advances-then s s' out_of_fuel x y = tt

note_qc-view : (qc : QuorumCertificate) (s : Staging) → (note_qc qc s).view ≡ s.view
unfolding note_qc maybe_update_last_qc
note_qc-view qc s = ground arith

do_byzantine_commit-view : (old n : ℕ) (s : Staging) → (do_byzantine_commit old n s).view ≡ s.view
unfolding do_byzantine_commit
do_byzantine_commit-view old n s = elim (Bool-cases (leb n old)) [
  | inl e ↦ rw e refl
  | inr e ↦ rw e refl
]

view-maybe_byzantine_commit :
    (cfg : Config) (qc : QuorumCertificate) (s : Staging)
    → s.view ≡ (maybe_byzantine_commit cfg qc s).view
unfolding maybe_byzantine_commit
view-maybe_byzantine_commit cfg qc s =
    omega (arith, do_byzantine_commit-view (note_qc qc s).bci _ (note_qc qc s), note_qc-view qc s)

pub maybe_byzantine_commit-Advances :
    (cfg : Config) (qc : QuorumCertificate) (s : Staging)
    → Advances s (maybe_byzantine_commit cfg qc s)
maybe_byzantine_commit-Advances cfg qc s = record {
  view = omega (arith, view-maybe_byzantine_commit cfg qc s);
  bci = (maybe_byzantine_commit-Reason cfg qc s).0;
}

pub do_crash_commit-Advances : (old n : ℕ) (s : Staging) → Advances s (do_crash_commit old n s)
unfolding do_crash_commit
do_crash_commit-Advances old n s = elim (Bool-cases (leb n old)) [
  | inl e ↦ rw e (Advances-same s s refl refl)
  | inr e ↦ rw e (Advances-same s _ refl refl)
]

maybe_crash_commit-Advances : (cfg : Config) (s : Staging) → Advances s (maybe_crash_commit cfg s)
unfolding maybe_crash_commit
maybe_crash_commit-Advances cfg s =
    let a = do_crash_commit-Advances s.ci _ (record s { ci = _ }) in
    record { view = a.view; bci = a.bci }

pub maybe_stabilize_view-Advances :
    (cfg : Config) (qc : QuorumCertificate) (s : Staging)
    → IfDone (Advances s) (maybe_stabilize_view cfg qc s)
unfolding maybe_stabilize_view
maybe_stabilize_view-Advances cfg qc s = go (back s.pending_blocks)
  where
    go :
        (o : Option PendingBlock)
        → IfDone (Advances s) (elim o [
          | none ↦ panicked
          | some _ ↦ done (
              if not (qc.view == s.view)
              then s
              else emit
                  (view_stabilised s.view s.config_num
                    ∷ make_leader (i_am_leader cfg s.view) (get_leader_for_view cfg s.view)
                    ∷ stop_cancelling
                    ∷ [])
                  (record s { view_is_stable = true }))
        ])
    go none = tt
    go (some _) = elim (Bool-cases (not (qc.view == s.view))) [
      | inl e ↦ rw e (Advances-same s s refl refl)
      | inr e ↦ rw e (Advances-same s _ refl refl)
    ]

maybe_stabilize-Advances :
    (cfg : Config) (qc : QuorumCertificate) (s : Staging)
    → IfDone (Advances s) (maybe_stabilize cfg qc s)
maybe_stabilize-Advances cfg qc s = go s.view_is_stable
  where
    go :
        (stable : Bool)
        → IfDone
            (Advances s)
            (elim stable [ true ↦ done s | false ↦ maybe_stabilize_view cfg qc s ])
    go true = Advances-same s s refl refl
    go false = maybe_stabilize_view-Advances cfg qc s

use_qcs-Advances :
    (cfg : Config) (qcs : List QuorumCertificate) (s : Staging)
    → IfDone (Advances s) (use_qcs cfg qcs s)
unfolding use_qcs
use_qcs-Advances cfg [] s = Advances-same s s refl refl
use_qcs-Advances cfg (qc ∷ qcs) s =
    IfDone-bind (Advances s) (Advances s) (maybe_stabilize cfg qc s) _
      (maybe_stabilize-Advances cfg qc s)
      (λ s' a.
        let told = emit (send_qc qc ∷ []) s' in
        let after = maybe_byzantine_commit cfg qc told in
        let c = maybe_byzantine_commit-Advances cfg qc told in
        Advances-then s after _
          (record { view = omega (arith, a.view, c.view); bci = omega (arith, a.bci, c.bci) })
          (use_qcs-Advances cfg qcs after))

maybe_create_qcs-Advances :
    (cfg : Config) (s : Staging) → IfDone (Advances s) (maybe_create_qcs cfg s)
unfolding maybe_create_qcs
maybe_create_qcs-Advances cfg s =
    Advances-then s (record s { pending_blocks = _ }) _ (Advances-same s _ refl refl)
      (use_qcs-Advances cfg _ (record s { pending_blocks = _ }))

pub process_vote-Advances :
    (cfg : Config) (sender : Name) (v : Vote) (s : Staging)
    → IfDone (Advances s) (process_vote cfg sender v s)
unfolding process_vote
process_vote-Advances cfg sender v s = elim (Bool-cases (not (s.view == v.view))) [
  | inl e ↦ rw e (Advances-same s s refl refl)
  | inr e ↦ rw e (elim (Bool-cases (not (in_range v.n s.pending_blocks))) [
    | inl e' ↦ rw e' (Advances-same s s refl refl)
    | inr e' ↦ rw e' (
        let voted = record s {
          pending_blocks = vote_blocks sender v.n v.sig_array s.pending_blocks;
        } in
        let a = maybe_crash_commit-Advances cfg voted in
        Advances-then s (maybe_crash_commit cfg voted) _ (record { view = a.view; bci = a.bci })
          (maybe_create_qcs-Advances cfg (maybe_crash_commit cfg voted)))
  ])
]
