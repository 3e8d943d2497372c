-- ===== src/App/Stores.antt =====
-- The key-value store as an engine.
use powder_raft.Common.{arith, List, refl, length, ◌≡◌, ◌∷◌, []}
use powder_raft.App.{Engine}
use powder_raft.Kvs.Blocks.{
  byz_blocks, handle_byz_commit, handle_rollback, handle_crash_commit, handle_unlogged_request,
  exec_txs,
}
use powder_raft.Kvs.{new, Kvs}
use powder_raft.Common.Outcome.{IfDone, IfDone-bind, IfDone-after}
use powder_raft.Types.{CachedBlock}

abbrev pub kvs_engine : Engine Kvs
kvs_engine = record {
  start = new;
  crash_commit = handle_crash_commit;
  byz_commit = handle_byz_commit;
  rollback = handle_rollback;
  unlogged_request = handle_unlogged_request;
}

-- Each block has its results.
pub length-handle_crash_commit :
    (bs : List CachedBlock) (s : Kvs)
    → IfDone (λ r. length bs ≡ length r.0) (handle_crash_commit bs s)
unfolding handle_crash_commit
length-handle_crash_commit [] s = refl
length-handle_crash_commit (b ∷ bs) s =
    IfDone-after (λ r. length (b ∷ bs) ≡ length r.0)
      (exec_txs b.n b.tx_list (record s { last_ci = b.n })) _
      λ first.
        IfDone-bind (λ r. length bs ≡ length r.0) (λ r. length (b ∷ bs) ≡ length r.0)
          (handle_crash_commit bs first.1) _ (length-handle_crash_commit bs first.1)
          λ rest h. omega (arith, h)

pub length-byz_blocks : (bs : List CachedBlock) (s : Kvs) → length bs ≡ length (byz_blocks bs s).0
unfolding byz_blocks
length-byz_blocks [] s = refl
length-byz_blocks (b ∷ bs) s = omega (arith, length-byz_blocks bs _)
