-- ===== src/Kvs/Refine.antt =====
-- The versioned store behaves as the plain map.
use powder_raft.Common.{
  ℕ, ◌≡◌, refl, ap, subst, ◌∙◌, Bool, true, false, List, [], ◌∷◌, ◌++◌, Option, none, some, Bytes,
  Bytes-discrete, if◌then◌else◌, map_or, add64, back-append, lookup, arith,
}
use mathlib.Core.Path.{fun_ext}
use powder_raft.Common.Outcome.{Outcome, done, panicked, failed, out_of_fuel, ◌>>=◌}
use powder_raft.Types.{Transaction, TransactionOp, OpResult}
use mathlib.Core.Logic.{ite}
use powder_raft.Kvs.{
  Kvs, write, versions, exec_write, exec_read, exec_increment, increment, exec_cas, exec_op,
  ok_result, counter, passes, CasOp, cas_ops, must_operate, read_vals, swap_all, Versions,
}
use powder_raft.Kvs.Blocks.{exec_ops, exec_tx, exec_txs}
use powder_raft.Kvs.Validity.{IsValid, view, value_of, read-view, versions-write}
use powder_raft.Kvs.Spec.{
  View, update, spec_increment, spec_vals, spec_swap, spec_write, spec_read, spec_count, spec_cas,
  spec_op, spec_ops, spec_tx, spec_txs,
}
use powder_raft.Common.BigEndian.{to_be_bytes, from_be_bytes}

value_of-ite :
    {X : Type 0} (d : Dec X) (vs ws : Versions) (v : ℕ × Bytes) (old : Option Bytes)
    → value_of (ite d (vs ++ v ∷ []) ws) old ≡ ite d (some v.1) (value_of ws old)
value_of-ite (yes _) vs ws v old = ap (map_or old (λ (w : ℕ × Bytes). some w.1)) (back-append vs v)
value_of-ite (no _) vs ws v old = refl

pub view-write : (n : ℕ) (k val : Bytes) (s : Kvs) → view (write n k val s) ≡ update k val (view s)
unfolding write
view-write n k val s = fun_ext λ j.
    ap (λ vs. value_of vs (lookup Bytes-discrete j s.bci_state)) (versions-write n k j val s)
    ∙ value_of-ite (Bytes-discrete k j) (versions k s) (versions j s) (n, val) _

module _ (J : ℕ → Kvs → Type 0) where
  -- Both return the same results and states that hold the same values, or both stop the same way.
  pub data Refines {A : Type 0} (n : ℕ) : Outcome (A × Kvs) → Outcome (A × View) → Type 0 where
    both : (a : A) (s : Kvs) → J n s → Refines n (done (a, s)) (done (a, view s))
    neither : Refines n panicked panicked
    fails : Refines n failed failed
    starves : Refines n out_of_fuel out_of_fuel

  pub Refines-bind :
      {A B : Type 0} (n m : ℕ) (o : Outcome (A × Kvs)) (p : Outcome (A × View))
      (f : A × Kvs → Outcome (B × Kvs)) (g : A × View → Outcome (B × View))
      → Refines n o p
      → ((a : A) (s : Kvs) → J n s → Refines m (f (a, s)) (g (a, view s)))
      → Refines m (o >>= f) (p >>= g)
  Refines-bind n m _ _ f g (both a s j) k = k a s j
  Refines-bind n m _ _ f g neither k = neither
  Refines-bind n m _ _ f g fails k = fails
  Refines-bind n m _ _ f g starves k = starves

module _ (J : ℕ → Kvs → Type 0) (valid : (n : ℕ) (s : Kvs) → J n s → IsValid s)
    (keeps : (n : ℕ) (k val : Bytes) (s : Kvs) → J n s → J n (write n k val s)) where
  -- A write on both sides.
  written :
      {A : Type 0} (n : ℕ) (k val : Bytes) (a : A) (s : Kvs)
      → J n s
      → Refines J n (done (a, write n k val s)) (done (a, update k val (view s)))
  written n k val a s j =
      subst (λ f. Refines J n (done (a, write n k val s)) (done (a, f))) (view-write n k val s)
        (both a (write n k val s) (keeps n k val s j))

  exec_write-Refines :
      (n : ℕ) (operands : List Bytes) (s : Kvs)
      → J n s
      → Refines J n (exec_write n operands s) (spec_write operands (view s))
  unfolding exec_write spec_write
  exec_write-Refines n [] s j = both [] s j
  exec_write-Refines n (k ∷ []) s j = both [] s j
  exec_write-Refines n (k ∷ v ∷ []) s j = written n k v _ s j
  exec_write-Refines n (k ∷ v ∷ _ ∷ _) s j = both [] s j

  exec_read-Refines :
      (n : ℕ) (operands : List Bytes) (s : Kvs)
      → J n s
      → Refines J n (exec_read operands s) (spec_read operands (view s))
  unfolding exec_read spec_read
  exec_read-Refines n [] s j = both [] s j
  exec_read-Refines n (k ∷ []) s j = rw (read-view k s (valid n s j)) (both _ s j)
  exec_read-Refines n (k ∷ _ ∷ _) s j = both [] s j

  increment-Refines :
      (n : ℕ) (k : Bytes) (incr_val : ℕ) (check : Option ℕ) (s : Kvs)
      → J n s
      → Refines J n (increment n k incr_val check s) (spec_increment k incr_val check (view s))
  unfolding increment spec_increment
  increment-Refines n k incr_val check s j =
      rw (read-view k s (valid n s j)) (go (counter (view s k)))
    where
      go :
          (o : Outcome ℕ)
          → Refines J n
              (o >>= λ current. done (
                ok_result (
                      to_be_bytes (if passes check current then add64 current incr_val else current)
                      ∷ [])
                    ∷ [],
                write n k
                    (to_be_bytes (if passes check current then add64 current incr_val else current))
                    s,
              ))
              (o >>= λ current. done (
                ok_result (
                      to_be_bytes (if passes check current then add64 current incr_val else current)
                      ∷ [])
                    ∷ [],
                update k
                    (to_be_bytes (if passes check current then add64 current incr_val else current))
                    (view s),
              ))
      go (done c) = written n k _ _ s j
      go panicked = neither
      go failed = fails
      go out_of_fuel = starves

  exec_increment-Refines :
      (n : ℕ) (operands : List Bytes) (s : Kvs)
      → J n s
      → Refines J n (exec_increment n operands s) (spec_count operands (view s))
  unfolding exec_increment spec_count
  exec_increment-Refines n [] s j = both [] s j
  exec_increment-Refines n (k ∷ []) s j = increment-Refines n k 1 none s j
  exec_increment-Refines n (k ∷ i ∷ []) s j = increment-Refines n k _ none s j
  exec_increment-Refines n (k ∷ i ∷ c ∷ []) s j = increment-Refines n k 1 (from_be_bytes c) s j
  exec_increment-Refines n (k ∷ i ∷ c ∷ _ ∷ _) s j = both [] s j

  read_vals-view :
      (n : ℕ) (ops : List CasOp) (s : Kvs) → J n s → read_vals ops s ≡ done (spec_vals ops (view s))
  unfolding read_vals spec_vals
  read_vals-view n [] s j = refl
  read_vals-view n (op ∷ ops) s j =
      rw (read-view op.key s (valid n s j), read_vals-view n ops s j) refl

  swap_all-view :
      (n : ℕ) (ops : List CasOp) (s : Kvs)
      → J n s
      → J n (swap_all n ops s) × (view (swap_all n ops s) ≡ spec_swap ops (view s))
  unfolding swap_all spec_swap
  swap_all-view n [] s j = (j, refl)
  swap_all-view n (op ∷ ops) s j =
      let (kept, same) =
        swap_all-view n ops (write n op.key op.swap_val s) (keeps n op.key op.swap_val s j) in
      (kept, same ∙ ap (spec_swap ops) (view-write n op.key op.swap_val s))

  exec_cas-Refines :
      (n : ℕ) (operands : List Bytes) (s : Kvs)
      → J n s
      → Refines J n (exec_cas n operands s) (spec_cas operands (view s))
  unfolding exec_cas spec_cas
  exec_cas-Refines n operands s j = go (cas_ops operands)
    where
      swap :
          (must : Bool) (r : List OpResult) (ops : List CasOp)
          → Refines J n
              (done (r, if must then swap_all n ops s else s))
              (done (r, if must then spec_swap ops (view s) else view s))
      swap true r ops =
          let (kept, same) = swap_all-view n ops s j in
          subst (λ f. Refines J n (done (r, swap_all n ops s)) (done (r, f))) same
            (both r (swap_all n ops s) kept)
      swap false r ops = both r s j

      go :
          (o : Option (List CasOp))
          → Refines J {A = List OpResult} n
              (elim o [
                | none ↦ done ([], s)
                | some ops ↦ read_vals ops s >>= λ vals. done (
                  record { success = must_operate ops vals; values = vals } ∷ [],
                  if must_operate ops vals then swap_all n ops s else s,
                )
              ])
              (elim o [
                | none ↦ done ([], view s)
                | some ops ↦ done (
                  record {
                    success = must_operate ops (spec_vals ops (view s));
                    values = spec_vals ops (view s);
                  }
                      ∷ [],
                  if must_operate ops (spec_vals ops (view s))
                      then spec_swap ops (view s)
                      else view s,
                )
              ])
      go none = both [] s j
      go (some ops) = rw (read_vals-view n ops s j) (swap _ _ ops)

  exec_op-Refines :
      (n : ℕ) (op : TransactionOp) (s : Kvs)
      → J n s
      → Refines J n (exec_op n op s) (spec_op op (view s))
  unfolding exec_op spec_op
  exec_op-Refines n op s j = ground (
    arith,
    exec_write-Refines n op.operands s j,
    exec_read-Refines n op.operands s j,
    exec_increment-Refines n op.operands s j,
    exec_cas-Refines n op.operands s j,
    unchanged,
  )
    where
      unchanged : Refines J {A = List OpResult} n (done ([], s)) (done ([], view s))
      unchanged = both [] s j

  exec_ops-Refines :
      (n : ℕ) (ops : List TransactionOp) (s : Kvs)
      → J n s
      → Refines J n (exec_ops n ops s) (spec_ops ops (view s))
  unfolding exec_ops spec_ops
  exec_ops-Refines n [] s j = both [] s j
  exec_ops-Refines n (op ∷ ops) s j =
      Refines-bind J n n _ _ _ _ (exec_op-Refines n op s j) λ r s' j'.
        Refines-bind J n n _ _ _ _ (exec_ops-Refines n ops s' j')
          λ rs s'' j''. both (r ++ rs) s'' j''

  exec_tx-Refines :
      (n : ℕ) (tx : Transaction) (s : Kvs)
      → J n s
      → Refines J n (exec_tx n tx s) (spec_tx tx (view s))
  unfolding exec_tx spec_tx
  exec_tx-Refines n tx s j = go tx.on_crash_commit
    where
      go :
          (o : Option (List TransactionOp))
          → Refines J n
              (elim o [ none ↦ done ([], s) | some ops ↦ exec_ops n ops s ])
              (elim o [ none ↦ done ([], view s) | some ops ↦ spec_ops ops (view s) ])
      go none = both [] s j
      go (some ops) = exec_ops-Refines n ops s j

  pub exec_txs-Refines :
      (n : ℕ) (txs : List Transaction) (s : Kvs)
      → J n s
      → Refines J n (exec_txs n txs s) (spec_txs txs (view s))
  unfolding exec_txs spec_txs
  exec_txs-Refines n [] s j = both [] s j
  exec_txs-Refines n (tx ∷ txs) s j =
      Refines-bind J n n _ _ _ _ (exec_tx-Refines n tx s j) λ r s' j'.
        Refines-bind J n n _ _ _ _ (exec_txs-Refines n txs s' j')
          λ rs s'' j''. both (r ∷ rs) s'' j''
