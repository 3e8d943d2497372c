-- ===== src/Staging/Commit.antt =====
-- Commits, rollbacks and the continuity check of src/consensus/staging/steady_state.rs.
pub mod Pop
pub mod TwoHop
pub mod Byzantine
pub mod Crash
use powder_raft.Common.{
  ℕ, ◌+◌, Bool, false, ◌&&◌, List, [], ◌∷◌, Option, none, some, ltb, leb, ◌==◌, if◌then◌else◌,
  bytes_eq, retain, any, front, back, length, map_or,
}
use powder_raft.Types.{CachedBlock, QuorumCertificate}
use powder_raft.Config.{
  Config, crash_commit_threshold, byzantine_commit_threshold, byzantine_fast_path_threshold,
}
use powder_raft.Staging.State.{
  Staging, PendingBlock, update_ci, crash_commit, byz_commit, app_rollback, log_rollback,
  log_update_bci, reset_timer, emit, blocks_of,
}

-- The empty queue: only block 1, or a block right behind the last committed one.
abbrev pub continues : Option CachedBlock → CachedBlock → Bool
continues none b = b.n == 1
continues (some p) b = bytes_eq b.parent p.block_hash && b.n == p.n + 1

-- The queue from `first` to `last`.
abbrev pub continues_queue : PendingBlock → PendingBlock → List PendingBlock → CachedBlock → Bool
continues_queue first last pending b =
    if ltb (last.n + 1) b.n
    then false
    else if ltb b.n first.n
    then false
    else if b.n == last.n + 1
    then bytes_eq b.parent last.block_hash
    else any (λ p. p.n == b.n && bytes_eq p.block_hash b.block_hash) pending

unfoldable pub check_continuity : CachedBlock → Staging → Bool
check_continuity b s = elim (front s.pending_blocks) [
  | none ↦ continues s.curr_parent_for_pending b
  | some first ↦ elim (back s.pending_blocks) [
    | none ↦ continues s.curr_parent_for_pending b
    | some last ↦ continues_queue first last s.pending_blocks b
  ]
]

unfoldable pub rollback : ℕ → Staging → Staging
rollback n s = emit (app_rollback n ∷ log_rollback n ∷ []) (record s {
  pending_blocks = retain (λ p. leb p.n n) s.pending_blocks;
  pending_signatures = retain (λ e. leb e.0 n) s.pending_signatures;
})

-- The blocks of a crash commit.
abbrev pub between : ℕ → ℕ → List PendingBlock → List CachedBlock
between old_ci new_ci ps = blocks_of (retain (λ p. ltb old_ci p.n && leb p.n new_ci) ps)

unfoldable pub do_crash_commit : ℕ → ℕ → Staging → Staging
do_crash_commit old_ci new_ci s =
    if leb new_ci old_ci
    then s
    else emit (update_ci new_ci ∷ crash_commit (between old_ci new_ci s.pending_blocks) ∷ [])
        (record s { ci = new_ci })

-- The loop of `maybe_crash_commit`: the last block above `ci` with enough replicas.
unfoldable pub replicated_up_to : ℕ → ℕ → List PendingBlock → ℕ
replicated_up_to thresh ci [] = ci
replicated_up_to thresh ci (p ∷ ps) =
    replicated_up_to thresh
      (if leb p.n ci then ci else if leb thresh (length p.replication_set) then p.n else ci) ps

-- Above the soft gap a crash commit waits for a Byzantine quorum.
unfoldable pub commit_threshold : Config → Staging → ℕ
commit_threshold cfg s =
    if ltb (s.bci + cfg.commit_index_gap_soft) s.ci
    then byzantine_commit_threshold cfg
    else crash_commit_threshold cfg

unfoldable pub maybe_crash_commit : Config → Staging → Staging
unfolding commit_threshold replicated_up_to do_crash_commit
maybe_crash_commit cfg s =
    let new_ci = replicated_up_to (commit_threshold cfg s) s.ci s.pending_blocks in
    do_crash_commit s.ci new_ci (record s { ci = new_ci })

-- `pop_front` while the number is at most `new_bci`: the blocks popped, those left, and the parent
-- of those left.
unfoldable pub pop_committed :
    ℕ
    → List PendingBlock
    → Option CachedBlock
    → List CachedBlock × List PendingBlock × Option CachedBlock
pop_committed new_bci [] parent = ([], [], parent)
pop_committed new_bci (p ∷ ps) parent =
    let (popped, left, parent') =
      pop_committed new_bci ps (if p.n == new_bci then some p.cached else parent) in
    if ltb new_bci p.n then ([], p ∷ ps, parent) else (p.cached ∷ popped, left, parent')

unfoldable pub do_byzantine_commit : ℕ → ℕ → Staging → Staging
unfolding pop_committed
do_byzantine_commit old_bci new_bci s =
    if leb new_bci old_bci
    then s
    else (let (popped, left, parent) =
          pop_committed new_bci s.pending_blocks s.curr_parent_for_pending in
        emit (byz_commit popped ∷ log_update_bci new_bci ∷ [])
          (record s { bci = new_bci; pending_blocks = left; curr_parent_for_pending = parent }))

abbrev pub last_qc_n : Option QuorumCertificate → ℕ
last_qc_n = map_or 0 (λ q. q.n)

unfoldable pub maybe_update_last_qc : QuorumCertificate → Staging → Staging
maybe_update_last_qc qc s =
    if ltb (last_qc_n s.last_qc) qc.n then record s { last_qc = some qc } else s

-- `max()` over the numbers of the certificates in the blocks up to `n`.
abbrev pub max_option : ℕ → Option ℕ → Option ℕ
max_option n none = some n
max_option n (some m) = some (if leb n m then m else n)

unfoldable pub max_qc : List QuorumCertificate → Option ℕ
max_qc [] = none
max_qc (q ∷ qs) = max_option q.n (max_qc qs)

abbrev pub merge_max : Option ℕ → Option ℕ → Option ℕ
merge_max none o = o
merge_max (some n) o = max_option n o

unfoldable pub max_qc_up_to : ℕ → List PendingBlock → Option ℕ
unfolding max_qc
max_qc_up_to n [] = none
max_qc_up_to n (p ∷ ps) = merge_max (if leb p.n n then max_qc p.qc else none) (max_qc_up_to n ps)

-- Fast path: a certificate by all nodes in a stable view.
unfoldable pub fast_path_bci : Config → QuorumCertificate → Staging → ℕ
fast_path_bci cfg qc s =
    if s.view_is_stable && leb (byzantine_fast_path_threshold cfg) (length qc.sig)
    then qc.n
    else s.bci

-- Slow path: the certificates in the blocks that this one covers.
unfoldable pub slow_path_bci : QuorumCertificate → Staging → ℕ
unfolding max_qc_up_to
slow_path_bci qc s = map_or s.bci (λ n. n) (max_qc_up_to qc.n s.pending_blocks)

abbrev pub max : ℕ → ℕ → ℕ
max a b = if leb a b then b else a

-- Whether the certificate is news, so that the timer starts again.
abbrev pub is_fresh : QuorumCertificate → Staging → Bool
is_fresh qc s = leb s.view qc.view && ltb (last_qc_n s.last_qc) qc.n

unfoldable pub note_qc : QuorumCertificate → Staging → Staging
unfolding maybe_update_last_qc
note_qc qc s =
    let s' = if is_fresh qc s then maybe_update_last_qc qc (emit (reset_timer ∷ []) s) else s in
    record s' { pending_signatures = retain (λ e. ltb qc.n e.0) s'.pending_signatures }

unfoldable pub maybe_byzantine_commit : Config → QuorumCertificate → Staging → Staging
unfolding note_qc fast_path_bci slow_path_bci do_byzantine_commit
maybe_byzantine_commit cfg qc s =
    let s' = note_qc qc s in
    do_byzantine_commit s'.bci (max (fast_path_bci cfg qc s') (slow_path_bci qc s')) s'
