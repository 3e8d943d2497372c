-- ===== src/Kvs/Blocks.antt =====
-- The handlers of the key-value store: commits of blocks, rollbacks and unlogged requests.
use powder_raft.Common.{
  ℕ, suc, Bool, false, List, [], ◌∷◌, ◌++◌, Option, none, some, Bytes, Bytes-discrete, leb, ltb,
  ◌==◌, if◌then◌else◌, insert, retain, length, map,
}
use powder_raft.Common.Outcome.{Outcome, done, ◌>>=◌}
use powder_raft.Types.{CachedBlock, Transaction, TransactionOp, OpResult}
use powder_raft.Kvs.{Kvs, Versions, Step, exec_op, read, ok_result}

-- `ProtoByzResponse` of src/proto/client.proto.
pub record ByzResponse : Type 0 where
  pub block_n : ℕ
  pub tx_n : ℕ
  pub client_tag : ℕ

unfoldable pub exec_ops : ℕ → List TransactionOp → Kvs → Step
unfolding exec_op
exec_ops n [] s = done ([], s)
exec_ops n (op ∷ ops) s = do
  (result, s') ← exec_op n op s
  (results, s'') ← exec_ops n ops s'
  done (result ++ results, s'')

unfoldable pub exec_tx : ℕ → Transaction → Kvs → Step
unfolding exec_ops
exec_tx n tx s = elim tx.on_crash_commit [ none ↦ done ([], s) | some ops ↦ exec_ops n ops s ]

unfoldable pub exec_txs : ℕ → List Transaction → Kvs → Outcome (List (List OpResult) × Kvs)
unfolding exec_tx
exec_txs n [] s = done ([], s)
exec_txs n (tx ∷ txs) s = do
  (result, s') ← exec_tx n tx s
  (results, s'') ← exec_txs n txs s'
  done (result ∷ results, s'')

unfoldable pub handle_crash_commit :
    List CachedBlock → Kvs → Outcome (List (List (List OpResult)) × Kvs)
unfolding exec_txs
handle_crash_commit [] s = done ([], s)
handle_crash_commit (b ∷ bs) s = do
  (result, s') ← exec_txs b.n b.tx_list (record s { last_ci = b.n })
  (results, s'') ← handle_crash_commit bs s'
  done (result ∷ results, s'')

-- The writes of the Byzantine phase go to the lower state.
unfoldable pub byz_op : TransactionOp → List (Bytes × Bytes) → List (Bytes × Bytes)
byz_op op bci = elim op.operands [
  | key ∷ val ∷ [] ↦ if op.op_type == 2 then insert Bytes-discrete key val bci else bci
  | _ ↦ bci
]

unfoldable pub byz_ops : List TransactionOp → List (Bytes × Bytes) → List (Bytes × Bytes)
unfolding byz_op
byz_ops [] bci = bci
byz_ops (op ∷ ops) bci = byz_ops ops (byz_op op bci)

abbrev pub byz_tx : Transaction → List (Bytes × Bytes) → List (Bytes × Bytes)
byz_tx tx bci = elim tx.on_byzantine_commit [ none ↦ bci | some ops ↦ byz_ops ops bci ]

-- The transactions of block `n` from number `tx_n` on.
unfoldable pub byz_txs :
    ℕ → ℕ → List Transaction → List (Bytes × Bytes) → List ByzResponse × List (Bytes × Bytes)
unfolding byz_ops
byz_txs n tx_n [] bci = ([], bci)
byz_txs n tx_n (tx ∷ txs) bci =
    let (results, bci') = byz_txs n (suc tx_n) txs (byz_tx tx bci) in
    (record { block_n = n; tx_n = tx_n; client_tag = 0 } ∷ results, bci')

unfoldable pub byz_blocks : List CachedBlock → Kvs → List (List ByzResponse) × Kvs
unfolding byz_txs
byz_blocks [] s = ([], s)
byz_blocks (b ∷ bs) s =
    let (result, bci) = byz_txs b.n 0 b.tx_list s.bci_state in
    let (results, s') = byz_blocks bs (record s { last_bci = b.n; bci_state = bci }) in
    (result ∷ results, s')

-- The versions of one key that are committed for good, in their order.
unfoldable pub settle : ℕ → Bytes → Versions → List (Bytes × Bytes) → List (Bytes × Bytes)
settle bci key [] m = m
settle bci key ((pos, val) ∷ vs) m =
    settle bci key vs (if leb pos bci then insert Bytes-discrete key val m else m)

unfoldable pub settle_all :
    ℕ → List (Bytes × Versions) → List (Bytes × Bytes) → List (Bytes × Bytes)
unfolding settle
settle_all bci [] m = m
settle_all bci ((key, vs) ∷ entries) m = settle_all bci entries (settle bci key vs m)

-- `val_versions.retain(p)` for every key, then the keys that have a version left.
unfoldable pub retain_versions : (ℕ → Bool) → List (Bytes × Versions) → List (Bytes × Versions)
retain_versions p m =
    retain (λ e. ltb 0 (length e.1))
      (map (λ (e : Bytes × Versions). (e.0, retain (λ v. p v.0) e.1)) m)

-- What is committed for good moves from the upper state to the lower.
unfoldable pub settle_committed : Kvs → Kvs
unfolding settle_all retain_versions
settle_committed s = record s {
  bci_state = settle_all s.last_bci s.ci_state s.bci_state;
  ci_state = retain_versions (λ pos. ltb s.last_bci pos) s.ci_state;
}

unfoldable pub handle_byz_commit : List CachedBlock → Kvs → List (List ByzResponse) × Kvs
unfolding byz_blocks settle_committed
handle_byz_commit bs s = let (results, s') = byz_blocks bs s in (results, settle_committed s')

unfoldable pub handle_rollback : ℕ → Kvs → Kvs
unfolding retain_versions
handle_rollback n s = record s { ci_state = retain_versions (λ pos. leb pos n) s.ci_state }

abbrev pub unlogged_result : Option Bytes → OpResult
unlogged_result none = record { success = false; values = [] }
unlogged_result (some value) = ok_result (value ∷ [])

unfoldable pub unlogged_ops : List TransactionOp → Kvs → Outcome (List OpResult)
unfolding read
unlogged_ops [] s = done []
unlogged_ops (op ∷ ops) s = elim op.operands [
  | key ∷ [] ↦ do value ← read key s; rest ← unlogged_ops ops s; done (unlogged_result value ∷ rest)
  | _ ↦ unlogged_ops ops s
]

unfoldable pub handle_unlogged_request : Transaction → Kvs → Outcome (List OpResult)
unfolding unlogged_ops
handle_unlogged_request tx s = elim tx.on_receive [ none ↦ done [] | some ops ↦ unlogged_ops ops s ]
