-- ===== src/Kvs/Spec.antt =====
-- What crash commits promise: the operations on a plain map from keys to values, with no versions.
use powder_raft.Common.{
  ℕ, true, false, List, [], ◌∷◌, ◌++◌, Option, none, some, Bytes, Bytes-discrete, ◌==◌,
  if◌then◌else◌, map_or, add64,
}
use powder_raft.Common.Outcome.{Outcome, done, ◌>>=◌}
use mathlib.Core.Logic.{ite}
use powder_raft.Types.{CachedBlock, Transaction, TransactionOp, OpResult}
use powder_raft.Kvs.{ok_result, found, counter, passes, CasOp, cas_ops, must_operate}
use powder_raft.Common.BigEndian.{to_be_bytes, from_be_bytes}

abbrev pub View : Type 0
View = Bytes → Option Bytes

abbrev pub update : Bytes → Bytes → View → View
update k v f j = ite (Bytes-discrete k j) (some v) (f j)

abbrev pub SpecStep : Type 0
SpecStep = Outcome (List OpResult × View)

unfoldable pub spec_increment : Bytes → ℕ → Option ℕ → View → SpecStep
spec_increment key incr_val check f = do
  current ← counter (f key)
  let val = to_be_bytes (if passes check current then add64 current incr_val else current)
  done (ok_result (val ∷ []) ∷ [], update key val f)

unfoldable pub spec_vals : List CasOp → View → List Bytes
spec_vals [] f = []
spec_vals (op ∷ ops) f = map_or [] (λ v. v) (f op.key) ∷ spec_vals ops f

unfoldable pub spec_swap : List CasOp → View → View
spec_swap [] f = f
spec_swap (op ∷ ops) f = spec_swap ops (update op.key op.swap_val f)

unfoldable pub spec_write : List Bytes → View → SpecStep
spec_write (key ∷ val ∷ []) f = done (ok_result [] ∷ [], update key val f)
spec_write _ f = done ([], f)

unfoldable pub spec_read : List Bytes → View → SpecStep
spec_read (key ∷ []) f = done (found (f key), f)
spec_read _ f = done ([], f)

unfoldable pub spec_count : List Bytes → View → SpecStep
unfolding spec_increment
spec_count (key ∷ []) f = spec_increment key 1 none f
spec_count (key ∷ incr_val ∷ []) f =
    spec_increment key (map_or 1 (λ i. i) (from_be_bytes incr_val)) none f
spec_count (key ∷ _ ∷ check ∷ []) f = spec_increment key 1 (from_be_bytes check) f
spec_count _ f = done ([], f)

unfoldable pub spec_cas : List Bytes → View → SpecStep
unfolding spec_vals spec_swap
spec_cas operands f = elim (cas_ops operands) [
  | none ↦ done ([], f)
  | some ops ↦
      let vals = spec_vals ops f in
      let must = must_operate ops vals in
      done (record { success = must; values = vals } ∷ [], if must then spec_swap ops f else f)
]

unfoldable pub spec_op : TransactionOp → View → SpecStep
unfolding spec_write spec_read spec_count spec_cas
spec_op op f = elim (op.op_type == 2) [
  | true ↦ spec_write op.operands f
  | false ↦ elim (op.op_type == 1) [
    | true ↦ spec_read op.operands f
    | false ↦ elim (op.op_type == 3) [
      | true ↦ spec_count op.operands f
      | false ↦ elim (op.op_type == 4) [ true ↦ spec_cas op.operands f | false ↦ done ([], f) ]
    ]
  ]
]

unfoldable pub spec_ops : List TransactionOp → View → SpecStep
unfolding spec_op
spec_ops [] f = done ([], f)
spec_ops (op ∷ ops) f = do
  (result, f') ← spec_op op f
  (results, f'') ← spec_ops ops f'
  done (result ++ results, f'')

unfoldable pub spec_tx : Transaction → View → SpecStep
unfolding spec_ops
spec_tx tx f = elim tx.on_crash_commit [ none ↦ done ([], f) | some ops ↦ spec_ops ops f ]

unfoldable pub spec_txs : List Transaction → View → Outcome (List (List OpResult) × View)
unfolding spec_tx
spec_txs [] f = done ([], f)
spec_txs (tx ∷ txs) f = do
  (result, f') ← spec_tx tx f
  (results, f'') ← spec_txs txs f'
  done (result ∷ results, f'')

unfoldable pub spec_crash_commit :
    List CachedBlock → View → Outcome (List (List (List OpResult)) × View)
unfolding spec_txs
spec_crash_commit [] f = done ([], f)
spec_crash_commit (b ∷ bs) f = do
  (result, f') ← spec_txs b.tx_list f
  (results, f'') ← spec_crash_commit bs f'
  done (result ∷ results, f'')
