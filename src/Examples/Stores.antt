-- ===== src/Examples/Stores.antt =====
-- A store in which block 1 wrote a key, and two later blocks.
use powder_raft.Common.{
  ℕ, Bytes, refl, none, List, lookup, some, insert, arith, false, Bytes-discrete, ◌≡◌, ◌∷◌, [],
}
use powder_raft.Kvs.{read, exec_op, versions, Kvs, write, new}
use powder_raft.Kvs.Settle.{NoByzOps, handle_byz_commit-view}
use powder_raft.Types.{TransactionOp, CachedBlock, Transaction}
use powder_raft.Kvs.Blocks.{
  handle_byz_commit, exec_txs, handle_crash_commit, byz_blocks, handle_rollback,
}
use powder_raft.Kvs.Commits.{
  handle_rollback-undoes, IsValidUpTo, handle_crash_commit-Refines, last_n,
}
use powder_raft.Common.Outcome.{done, IfDone, ◌>>=◌}
use powder_raft.Examples.Fixtures.{block}
use powder_raft.Kvs.Spec.{spec_crash_commit}
use powder_raft.Kvs.Validity.{value_of, write-IsValid, view, IsValid}
use powder_raft.Kvs.Refine.{Refines}
use powder_raft.App
use powder_raft.App.Acks.{Acks, handle_crash_commit-Acks}
use powder_raft.App.Stores.{kvs_engine}
use powder_raft.App.{Application, no_stats}

abbrev op : ℕ → List Bytes → TransactionOp
op kind operands = record { op_type = kind; operands = operands }

abbrev crash_tx : List TransactionOp → Transaction
crash_tx ops = record {
  on_receive = none;
  on_crash_commit = some ops;
  on_byzantine_commit = none;
  is_reconfiguration = false;
  is_2pc = false;
}

abbrev with_ops : ℕ → List TransactionOp → CachedBlock
with_ops k ops = record (block k) { block = record (block k).block { tx_list = crash_tx ops ∷ [] } }

-- Block 2 reads and overwrites key 7, block 3 counts up key 8.
abbrev later_blocks : List CachedBlock
later_blocks =
    with_ops 2 (op 1 ((7 ∷ []) ∷ []) ∷ op 2 ((7 ∷ []) ∷ (2 ∷ []) ∷ []) ∷ [])
    ∷ with_ops 3 (op 3 ((8 ∷ []) ∷ []) ∷ [])
    ∷ []

abbrev store : Kvs
store = write 1 (7 ∷ []) (1 ∷ []) new

store-IsValidUpTo : IsValidUpTo 1 store
unfolding new lookup
store-IsValidUpTo =
    write-IsValid 1 (7 ∷ []) (1 ∷ []) new
      (record { keys = tt; full = λ k h. ground arith; sorted = λ k. tt }) (λ k. tt)

handle_crash_commit_run :
    (handle_crash_commit later_blocks store >>= λ r. read (7 ∷ []) r.1) ≡ done (some (2 ∷ []))
unfolding handle_crash_commit exec_txs exec_op new write read lookup insert Bytes-discrete
handle_crash_commit_run = refl

handle_crash_commit-Refines_example :
    Refines IsValidUpTo
      (last_n 1 later_blocks)
      (handle_crash_commit later_blocks store)
      (spec_crash_commit later_blocks (view store))
handle_crash_commit-Refines_example =
    handle_crash_commit-Refines 1 later_blocks store store-IsValidUpTo
      (omega arith, (omega arith, tt))

handle_rollback-undoes_example :
    IfDone (λ r. view (handle_rollback 1 r.1) ≡ view store) (handle_crash_commit later_blocks store)
handle_rollback-undoes_example =
    handle_rollback-undoes 1 later_blocks store store-IsValidUpTo (omega arith, (omega arith, tt))

handle_byz_commit-view_example :
    IsValid (handle_byz_commit later_blocks store).1
    × (view (handle_byz_commit later_blocks store).1 ≡ λ k.
        value_of
          (versions k store)
          (lookup Bytes-discrete k (byz_blocks later_blocks store).1.bci_state))
    × (NoByzOps later_blocks → view (handle_byz_commit later_blocks store).1 ≡ view store)
handle_byz_commit-view_example = handle_byz_commit-view later_blocks store store-IsValidUpTo.0

abbrev serving : Application Kvs
serving = record { engine = store; stats = record no_stats { ci = 1 }; sent = [] }

handle_crash_commit-Acks_example :
    Acks later_blocks serving (App.handle_crash_commit kvs_engine later_blocks serving)
handle_crash_commit-Acks_example =
    handle_crash_commit-Acks later_blocks serving store-IsValidUpTo (omega arith, (omega arith, tt))
