-- ===== src/Kvs/Settle.antt =====
-- Byzantine commits of the versioned store: which value moves down.
use powder_raft.Common.{
  ℕ, retain, some, lookup, leb, ltb, Bytes, Option, List, sym, refl, arith, All, Bytes-discrete,
  ◌≡◌, ◌≤◌, ◌<◌, ◌∙◌, ◌∷◌, [], ap, lookup-insert, insert, subst, suc, none, ◌≢◌, DistinctKeys,
}
use mathlib.Core.Path.{fun_ext}
use mathlib.Core.Logic.{ite}
use powder_raft.Kvs.Blocks.{
  settle, settle_committed, settle_all, byz_blocks, byz_txs, handle_byz_commit, retain_versions,
}
use powder_raft.Kvs.Validity.{Sorted, value_of, versions-retain, IsValid, view, retained-IsValid}
use powder_raft.Kvs.{Versions, versions, Kvs}
use powder_raft.Kvs.Keys.{versions_in}
use powder_raft.Types.{CachedBlock, Transaction}

value_of_cons :
    (v : ℕ × Bytes) (vs : Versions) (old : Option Bytes)
    → value_of (v ∷ vs) old ≡ value_of vs (some v.1)
value_of_cons v [] old = refl
value_of_cons v (w ∷ []) old = refl
value_of_cons v (w ∷ x ∷ vs) old =
    value_of_cons w (x ∷ vs) old ∙ sym (value_of_cons w (x ∷ vs) (some v.1))

none_below :
    (n : ℕ) (vs : Versions)
    → All (λ v. n < v.0) vs
    → (retain (λ v. leb v.0 n) vs ≡ []) × (retain (λ v. ltb n v.0) vs ≡ vs)
none_below n [] h = (refl, refl)
none_below n (v ∷ vs) h = let (none_left, all_left) = none_below n vs h.1 in ground arith

above_first : (n m : ℕ) (vs : Versions) → n < m → All (λ w. m ≤ w.0) vs → All (λ w. n < w.0) vs
above_first n m [] h a = tt
above_first n m (v ∷ vs) h a = (omega (arith, h, a.0), above_first n m vs h a.1)

-- The newest version wins, wherever the older ones stand.
split_versions :
    (n : ℕ) (vs : Versions) (old : Option Bytes)
    → Sorted vs
    → value_of (retain (λ v. ltb n v.0) vs) (value_of (retain (λ v. leb v.0 n) vs) old)
      ≡ value_of vs old
split_versions n [] old h = refl
split_versions n (v ∷ vs) old h = ground (
  arith,
  value_of_cons v (retain (λ w. leb w.0 n) vs) old,
  value_of_cons v vs old,
  split_versions n vs (some v.1) h.1,
  λ (high : n < v.0). none_below n vs (above_first n v.0 vs high h.0),
)

lookup-settle :
    (n : ℕ) (k j : Bytes) (vs : Versions) (m : List (Bytes × Bytes))
    → lookup Bytes-discrete j (settle n k vs m)
      ≡ ite
          (Bytes-discrete k j)
          (value_of (retain (λ v. leb v.0 n) vs) (lookup Bytes-discrete j m))
          (lookup Bytes-discrete j m)
unfolding settle
lookup-settle n k j [] m = ground arith
lookup-settle n k j (v ∷ vs) m = ground (
  arith,
  lookup-settle n k j vs m,
  lookup-settle n k j vs (insert Bytes-discrete k v.1 m),
  lookup-insert Bytes-discrete k j v.1 m,
  value_of_cons v (retain (λ w. leb w.0 n) vs) (lookup Bytes-discrete j m),
)

lookup-settle_all :
    (n : ℕ) (j : Bytes) (vm : List (Bytes × Versions)) (m : List (Bytes × Bytes))
    → DistinctKeys Bytes-discrete vm
    → lookup Bytes-discrete j (settle_all n vm m)
      ≡ value_of (retain (λ v. leb v.0 n) (versions_in j vm)) (lookup Bytes-discrete j m)
unfolding settle_all lookup
lookup-settle_all n j [] m d = refl
lookup-settle_all n j ((k, vs) ∷ vm) m d =
    ground (arith, lookup-settle n k j vs m, lookup-settle_all n j vm (settle n k vs m) d.1)

pub settle_committed-view : (s : Kvs) → IsValid s → view (settle_committed s) ≡ view s
unfolding settle_committed
settle_committed-view s v = fun_ext λ k.
    ap (λ vs. value_of vs (lookup Bytes-discrete k (settle_all s.last_bci s.ci_state s.bci_state)))
      (versions-retain (λ pos. ltb s.last_bci pos) k s v)
    ∙ ap (value_of (retain (λ w. ltb s.last_bci w.0) (versions k s)))
        (lookup-settle_all s.last_bci k s.ci_state s.bci_state v.keys)
    ∙ split_versions s.last_bci (versions k s) (lookup Bytes-discrete k s.bci_state) (v.sorted k)

byz_blocks-keeps : (bs : List CachedBlock) (s : Kvs) → (byz_blocks bs s).1.ci_state ≡ s.ci_state
unfolding byz_blocks
byz_blocks-keeps [] s = refl
byz_blocks-keeps (b ∷ bs) s = byz_blocks-keeps bs _

IsValid-ci_state : (s s' : Kvs) → s'.ci_state ≡ s.ci_state → IsValid s → IsValid s'
IsValid-ci_state s s' e v = record {
  keys = subst (DistinctKeys Bytes-discrete) (sym e) v.keys;
  full = λ k. subst (λ m. lookup Bytes-discrete k m ≢ some []) (sym e) (v.full k);
  sorted = λ k. subst (λ m. Sorted (versions_in k m)) (sym e) (v.sorted k);
}

no_byz_tx :
    (n tx_n : ℕ) (txs : List Transaction) (m : List (Bytes × Bytes))
    → All (λ tx. tx.on_byzantine_commit ≡ none) txs
    → (byz_txs n tx_n txs m).1 ≡ m
unfolding byz_txs
no_byz_tx n tx_n [] m h = refl
no_byz_tx n tx_n (tx ∷ txs) m h = rw h.0 (no_byz_tx n (suc tx_n) txs m h.1)

-- No transaction has operations for the Byzantine phase.
abbrev pub NoByzOps : List CachedBlock → Type 0
NoByzOps = All (λ b. All (λ tx. tx.on_byzantine_commit ≡ none) b.tx_list)

no_byz_blocks :
    (bs : List CachedBlock) (s : Kvs) → NoByzOps bs → (byz_blocks bs s).1.bci_state ≡ s.bci_state
unfolding byz_blocks
no_byz_blocks [] s h = refl
no_byz_blocks (b ∷ bs) s h = no_byz_blocks bs _ h.1 ∙ no_byz_tx b.n 0 b.tx_list s.bci_state h.0

-- A Byzantine commit of a valid store leaves it valid. A key with a version keeps its value,
-- whatever the Byzantine operations write; a key without holds what the lower state has after those
-- writes. If no transaction has Byzantine operations, no value changes.
pub handle_byz_commit-view :
    (bs : List CachedBlock) (s : Kvs)
    → IsValid s
    → IsValid (handle_byz_commit bs s).1
      × (view (handle_byz_commit bs s).1 ≡ λ k.
          value_of (versions k s) (lookup Bytes-discrete k (byz_blocks bs s).1.bci_state))
      × (NoByzOps bs → view (handle_byz_commit bs s).1 ≡ view s)
unfolding handle_byz_commit settle_committed
handle_byz_commit-view bs s v = (
  kept,
  same,
  λ h.
      same ∙ ap (λ m k. value_of (versions k s) (lookup Bytes-discrete k m)) (no_byz_blocks bs s h),
)
  where
    moved : IsValid (byz_blocks bs s).1
    moved = IsValid-ci_state s (byz_blocks bs s).1 (byz_blocks-keeps bs s) v

    kept : IsValid (handle_byz_commit bs s).1
    kept =
        IsValid-ci_state
          (record (byz_blocks bs s).1 {
            ci_state =
                retain_versions (λ pos. ltb (byz_blocks bs s).1.last_bci pos)
                  (byz_blocks bs s).1.ci_state;
          })
          (handle_byz_commit bs s).1 refl (retained-IsValid _ (byz_blocks bs s).1 moved)

    same : view (handle_byz_commit bs s).1 ≡ λ k.
        value_of (versions k s) (lookup Bytes-discrete k (byz_blocks bs s).1.bci_state)
    same =
        settle_committed-view (byz_blocks bs s).1 moved
        ∙ ap
            (λ m k.
              value_of (versions_in k m) (lookup Bytes-discrete k (byz_blocks bs s).1.bci_state))
            (byz_blocks-keeps bs s)
