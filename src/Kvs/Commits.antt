-- ===== src/Kvs/Commits.antt =====
-- Crash commits and rollbacks of the versioned store.
use powder_raft.Common.{
  ℕ, refl, List, Bytes-discrete, Bytes, leb, ap, arith, retain, lookup, ◌≡◌, ◌≤◌, ◌<◌, ◌∙◌, ◌+◌,
  ◌++◌, ◌∷◌, [],
}
use mathlib.Core.Path.{fun_ext}
use mathlib.Core.Logic.{ite}
use powder_raft.Kvs.{versions, write, Kvs, Versions}
use powder_raft.Kvs.Refine.{Refines, starves, neither, fails, exec_txs-Refines, both, Refines-bind}
use powder_raft.Kvs.Spec.{View, spec_crash_commit}
use powder_raft.Kvs.Validity.{
  view, Within, versions-retain, value_of, IsValid, versions-write, write-IsValid, UpTo,
}
use powder_raft.Common.Outcome.{Outcome, IfDone}
use powder_raft.Kvs.Blocks.{handle_crash_commit, handle_rollback}
use powder_raft.Types.{CachedBlock}

-- Blocks from number `n` on, in the order of their numbers.
abbrev pub Rising : ℕ → List CachedBlock → Type 0
Rising n [] = Unit {0}
Rising n (b ∷ bs) = (n ≤ b.n) × Rising b.n bs

abbrev pub last_n : ℕ → List CachedBlock → ℕ
last_n n [] = n
last_n n (b ∷ bs) = last_n b.n bs

module _ (J : ℕ → Kvs → Type 0) (valid : (n : ℕ) (s : Kvs) → J n s → IsValid s)
    (keeps : (n : ℕ) (k val : Bytes) (s : Kvs) → J n s → J n (write n k val s))
    (rises : (n m : ℕ) (s : Kvs) → n ≤ m → J n s → J m (record s { last_ci = m })) where
  crash_commit-Refines :
      (n : ℕ) (bs : List CachedBlock) (s : Kvs)
      → J n s
      → Rising n bs
      → Refines J (last_n n bs) (handle_crash_commit bs s) (spec_crash_commit bs (view s))
  unfolding handle_crash_commit spec_crash_commit
  crash_commit-Refines n [] s j r = both [] s j
  crash_commit-Refines n (b ∷ bs) s j r =
      Refines-bind J b.n (last_n b.n bs) _ _ _ _
        (exec_txs-Refines J valid keeps b.n b.tx_list (record s { last_ci = b.n })
          (rises n b.n s r.0 j))
        λ x s' j'.
          Refines-bind J (last_n b.n bs) (last_n b.n bs) _ _ _ _
            (crash_commit-Refines b.n bs s' j' r.1) λ xs s'' j''. both (x ∷ xs) s'' j''

-- The invariants of the store, with its versions from blocks up to a number.
abbrev pub IsValidUpTo : ℕ → Kvs → Type 0
IsValidUpTo n s = IsValid s × Within n s

UpTo-mono : (n m : ℕ) (vs : Versions) → n ≤ m → UpTo n vs → UpTo m vs
UpTo-mono n m [] h u = tt
UpTo-mono n m (v ∷ vs) h u = (omega (arith, h, u.0), UpTo-mono n m vs h u.1)

IsValid-last_ci : (c : ℕ) (s : Kvs) → IsValid s → IsValid (record s { last_ci = c })
IsValid-last_ci c s v = record { keys = v.keys; full = v.full; sorted = v.sorted }

-- In a valid store whose versions come from blocks up to `n`, crash commits of blocks numbered from
-- `n` on, in the order of their numbers, do what the operations do to a plain map: both return the
-- same results and the store then holds the values of the map and is valid again, or both stop the
-- same way (a panic on a counter that has not eight bytes).
pub handle_crash_commit-Refines :
    (n : ℕ) (bs : List CachedBlock) (s : Kvs)
    → IsValidUpTo n s
    → Rising n bs
    → Refines IsValidUpTo (last_n n bs) (handle_crash_commit bs s) (spec_crash_commit bs (view s))
handle_crash_commit-Refines =
    crash_commit-Refines IsValidUpTo (λ n s j. j.0) (λ n k val s j. write-IsValid n k val s j.0 j.1)
      (λ n m s h j. (IsValid-last_ci m s j.0, λ k. UpTo-mono n m (versions k s) h (j.1 k)))

-- What a state keeps of an earlier one, which had only versions up to `lo`.
record Extends (lo : ℕ) (before : Kvs) (n : ℕ) (s : Kvs) : Type 0 where
  above : lo < n
  valid : IsValidUpTo n s
  same_bci : s.bci_state ≡ before.bci_state
  same_below : (k : Bytes) → retain (λ v. leb v.0 lo) (versions k s) ≡ versions k before

retain-append_above :
    (lo n : ℕ) (val : Bytes) (vs : Versions)
    → lo < n
    → retain (λ v. leb v.0 lo) (vs ++ (n, val) ∷ []) ≡ retain (λ v. leb v.0 lo) vs
retain-append_above lo n val [] h = ground arith
retain-append_above lo n val (v ∷ vs) h = ground (arith, retain-append_above lo n val vs h)

retain-UpTo : (lo : ℕ) (vs : Versions) → UpTo lo vs → retain (λ v. leb v.0 lo) vs ≡ vs
retain-UpTo lo [] u = refl
retain-UpTo lo (v ∷ vs) u = ground (arith, retain-UpTo lo vs u.1)

below_ite :
    {X : Type 0} (d : Dec X) (lo n : ℕ) (val : Bytes) (vs ws us : Versions)
    → lo < n
    → (X → retain (λ v. leb v.0 lo) vs ≡ us)
    → retain (λ v. leb v.0 lo) ws ≡ us
    → retain (λ v. leb v.0 lo) (ite d (vs ++ (n, val) ∷ []) ws) ≡ us
below_ite (yes x) lo n val vs ws us h f g = retain-append_above lo n val vs h ∙ f x
below_ite (no _) lo n val vs ws us h f g = g

write-Extends :
    (lo : ℕ) (before : Kvs) (n : ℕ) (k val : Bytes) (s : Kvs)
    → Extends lo before n s
    → Extends lo before n (write n k val s)
unfolding write
write-Extends lo before n k val s e = record {
  above = e.above;
  valid = write-IsValid n k val s e.valid.0 e.valid.1;
  same_bci = e.same_bci;
  same_below = λ j.
      ap (retain (λ v. leb v.0 lo)) (versions-write n k j val s)
      ∙ below_ite (Bytes-discrete k j) lo n val (versions k s) (versions j s) (versions j before)
          e.above (λ x. e.same_below k ∙ ap (λ i. versions i before) x) (e.same_below j);
}

rises-Extends :
    (lo : ℕ) (before : Kvs) (n m : ℕ) (s : Kvs)
    → n ≤ m
    → Extends lo before n s
    → Extends lo before m (record s { last_ci = m })
rises-Extends lo before n m s h e = record {
  above = omega (arith, h, e.above);
  valid = (IsValid-last_ci m s e.valid.0, λ k. UpTo-mono n m (versions k s) h (e.valid.1 k));
  same_bci = e.same_bci;
  same_below = e.same_below;
}

rollback-Extends :
    (lo : ℕ) (before : Kvs) (n : ℕ) (s : Kvs)
    → Extends lo before n s
    → view (handle_rollback lo s) ≡ view before
unfolding handle_rollback
rollback-Extends lo before n s e = fun_ext λ k.
    ap (λ vs. value_of vs (lookup Bytes-discrete k s.bci_state))
      (versions-retain (λ pos. leb pos lo) k s e.valid.0 ∙ e.same_below k)
    ∙ ap (λ m. value_of (versions k before) (lookup Bytes-discrete k m)) e.same_bci

-- A state that refinement reaches satisfies `J`.
IfDone-Refines :
    (J : ℕ → Kvs → Type 0) {A : Type 0} (n : ℕ) (P : Kvs → Type 0) (o : Outcome (A × Kvs))
    (p : Outcome (A × View))
    → ((s : Kvs) → J n s → P s)
    → Refines J n o p
    → IfDone (λ r. P r.1) o
IfDone-Refines J n P _ _ f (both a s j) = f s j
IfDone-Refines J n P _ _ f neither = tt
IfDone-Refines J n P _ _ f fails = tt
IfDone-Refines J n P _ _ f starves = tt

-- In a valid store whose versions come from blocks up to `lo`, if crash commits of later blocks in
-- the order of their numbers return, a rollback to `lo` gives every key the value it had before
-- them.
pub handle_rollback-undoes :
    (lo : ℕ) (bs : List CachedBlock) (s : Kvs)
    → IsValidUpTo lo s
    → Rising (lo + 1) bs
    → IfDone (λ r. view (handle_rollback lo r.1) ≡ view s) (handle_crash_commit bs s)
handle_rollback-undoes lo bs s v r =
    IfDone-Refines (Extends lo s) (last_n (lo + 1) bs) (λ s'. view (handle_rollback lo s') ≡ view s)
      _ _ (rollback-Extends lo s (last_n (lo + 1) bs))
      (crash_commit-Refines (Extends lo s) (λ n s' e. e.valid.0) (write-Extends lo s)
        (rises-Extends lo s) (lo + 1) bs s begin r)
  where
    begin : Extends lo s (lo + 1) s
    begin = record {
      above = omega arith;
      valid = (v.0, λ k. UpTo-mono lo (lo + 1) (versions k s) (omega arith) (v.1 k));
      same_bci = refl;
      same_below = λ k. retain-UpTo lo (versions k s) (v.1 k);
    }
