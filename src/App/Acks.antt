-- ===== src/App/Acks.antt =====
-- What clients are told of crash commits, with the key-value store as engine.
use powder_raft.Common.{
  ℕ, ap, subst, eqb_of_eq, arith, refl, sym, length, List, ◌≡◌, ◌∙◌, ◌+◌, ◌++◌, ◌∷◌, ◌==◌, [],
  if◌then◌else◌,
}
use powder_raft.App
use powder_raft.App.{
  count, crash_commit_ack, answers, Application, handle_crash_commit, highest_n, highest_block_qc,
}
use powder_raft.Kvs.Refine.{both, Refines, starves, fails, neither}
use powder_raft.Kvs.{Kvs}
use powder_raft.Common.Outcome.{out_of_fuel, done, IfDone, panicked, Outcome, failed, ◌>>=◌}
use powder_raft.Types.{CachedBlock, OpResult}
use powder_raft.Kvs.Commits.{handle_crash_commit-Refines, IsValidUpTo, Rising, last_n}
use powder_raft.Kvs.Spec.{spec_crash_commit, View}
use powder_raft.App.Stores.{length-handle_crash_commit, kvs_engine}
use powder_raft.Kvs.Blocks
use powder_raft.Kvs.Validity.{view}

-- The clients get the results that the operations have on a plain map, and the store holds that map;
-- or the operations on the plain map stop, and the application stops the same way.
pub data Acks (bs : List CachedBlock) (s : Application Kvs)
    : Outcome (Application Kvs) → Type 0 where
  acked :
      (results : List (List (List OpResult))) (s' : Application Kvs)
      → spec_crash_commit bs (view s.engine) ≡ done (results, view s'.engine)
      → s'.sent ≡ s.sent ++ crash_commit_ack (answers bs results) ∷ []
      → s'.stats.ci ≡ last_n s.stats.ci bs
      → IsValidUpTo s'.stats.ci s'.engine
      → Acks bs s (done s')
  stopped : spec_crash_commit bs (view s.engine) ≡ panicked → Acks bs s panicked
  failing : spec_crash_commit bs (view s.engine) ≡ failed → Acks bs s failed
  starving : spec_crash_commit bs (view s.engine) ≡ out_of_fuel → Acks bs s out_of_fuel

highest_n-Rising : (n : ℕ) (bs : List CachedBlock) → Rising n bs → highest_n n bs ≡ last_n n bs
highest_n-Rising n [] r = refl
highest_n-Rising n (b ∷ bs) r =
    ap (λ m. highest_n m bs) (ground (arith, r.0)) ∙ highest_n-Rising b.n bs r.1

-- If the store is valid, with versions from blocks up to the application's commit index, and blocks
-- are crash committed that are numbered from there on, in the order of their numbers: the clients get,
-- for each block, the results that its operations have on the plain map of the store's values; the
-- store then holds the values of that map and is valid up to the new commit index, which is the last
-- block's number; the assertion on the number of results never fails. If the operations stop on the
-- plain map, so does the application.
pub handle_crash_commit-Acks :
    (bs : List CachedBlock) (s : Application Kvs)
    → IsValidUpTo s.stats.ci s.engine
    → Rising s.stats.ci bs
    → Acks bs s (App.handle_crash_commit kvs_engine bs s)
unfolding App.handle_crash_commit
handle_crash_commit-Acks bs s v r =
    go _ _ refl refl (handle_crash_commit-Refines s.stats.ci bs s.engine v r)
  where
    after : List (List (List OpResult)) → Kvs → Application Kvs
    after results engine = record s {
      engine = engine;
      stats = record s.stats {
        total_crash_committed_txs = s.stats.total_crash_committed_txs + count results;
        ci = highest_n s.stats.ci bs;
        last_qc = highest_block_qc s.stats.last_qc bs;
      };
      sent = s.sent ++ crash_commit_ack (answers bs results) ∷ [];
    }

    go :
        (o : Outcome (List (List (List OpResult)) × Kvs))
        (p : Outcome (List (List (List OpResult)) × View))
        → Blocks.handle_crash_commit bs s.engine ≡ o
        → spec_crash_commit bs (view s.engine) ≡ p
        → Refines IsValidUpTo (last_n s.stats.ci bs) o p
        → Acks bs s (
            o >>= λ (a : List (List (List OpResult)) × Kvs).
            if length bs == length a.0 then done (after a.0 a.1) else panicked)
    go _ _ e f (both results engine j) =
        rw
          (eqb_of_eq (length bs) (length results) (
            subst (IfDone (λ a. length bs ≡ length a.0)) e
              (length-handle_crash_commit bs s.engine)))
          (acked results (after results engine) f refl (highest_n-Rising s.stats.ci bs r)
            (subst (λ n. IsValidUpTo n engine) (sym (highest_n-Rising s.stats.ci bs r)) j))
    go _ _ e f neither = stopped f
    go _ _ e f fails = failing f
    go _ _ e f starves = starving f
