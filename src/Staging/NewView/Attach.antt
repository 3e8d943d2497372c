-- ===== src/Staging/NewView/Attach.antt =====
-- Invariant <ByzCommit>: the fork that a new view proposes continues what is committed.
use powder_raft.Common.{
  ℕ, ◌+◌, ◌≤◌, ◌<◌, ◌≡◌, refl, Bool, true, List, [], ◌∷◌, arith, In, Bool-cases, inl, inr, Bytes,
  back, map_or, any, bytes_eq, ap, Option, if◌then◌else◌, ◌==◌, some, ◌⊎◌, ◌-◌, none, subst, ◌&&◌,
  sym, leb,
}
use powder_raft.Types.{CachedBlock}
use powder_raft.ForkChoice.{ForkStat}
use powder_raft.Staging.State.{PendingBlock}
use powder_raft.Staging.Invariant.{NumberedFrom, IsValid, IsValid-NumberedFrom}
use powder_raft.Staging.NewView.{check_from, check_byz_commit_invariant, Staging, done}

-- How a fork that passes the check continues the log, and what is kept of the queue.
pub data Attaches (bci : ℕ) (parent : CachedBlock) (ps : List PendingBlock) (f : ForkStat)
    : ℕ → Type 0 where
  -- An empty fork: all is kept.
  empty : (k : ℕ) → f.fork_last_n ≡ 0 → bci ≤ k → Attaches bci parent ps f k
  -- The fork holds the last committed block.
  covers : f.first_n ≤ bci → In parent.block_hash f.block_hashes → Attaches bci parent ps f bci
  -- It begins right behind the last committed block.
  follows : f.first_n ≡ bci + 1 → f.first_parent ≡ parent.block_hash → Attaches bci parent ps f bci
  -- It begins behind a pending block, up to which the queue is kept.
  extends :
      (p : PendingBlock)
      → In p ps
      → f.first_n ≡ p.n + 1
      → bci < p.n
      → f.first_parent ≡ p.block_hash
      → Attaches bci parent ps f p.n

eq_of_bytes_eq : (x y : Bytes) → bytes_eq x y ≡ true → x ≡ y
eq_of_bytes_eq x y h = ground arith

In-any {ℓ} :
    {A : Type ℓ} (p : A → Bool) (xs : List A) → any p xs ≡ true → (x : A) × In x xs × (p x ≡ true)
In-any p [] h = cc
In-any p (x ∷ xs) h = elim (Bool-cases (p x)) [
  | inl e ↦ (x, inl refl, e)
  | inr e ↦ let (y, at, e') = In-any p xs (ground arith) in (y, inr at, e')
]

pending_back :
    (k : ℕ) (ps : List PendingBlock) → NumberedFrom k ps → k ≤ map_or k (λ p. p.n) (back ps)
pending_back k [] h = omega arith
pending_back k (p ∷ []) h = omega (arith, h.0)
pending_back k (p ∷ q ∷ ps) h = ground (arith, pending_back (k + 1) (q ∷ ps) h.1, h.0)

In-NumberedFrom :
    (k : ℕ) (p : PendingBlock) (ps : List PendingBlock) → NumberedFrom k ps → In p ps → k < p.n
In-NumberedFrom k p [] h m = elim m [ ]
In-NumberedFrom k p (q ∷ ps) h (inl e) = omega (arith, h.0, ap (λ x. x.n) e)
In-NumberedFrom k p (q ∷ ps) h (inr m) = omega (arith, In-NumberedFrom (k + 1) p ps h.1 m)

abbrev Checked : ℕ → CachedBlock → List PendingBlock → ForkStat → Option ℕ → Type 0
Checked bci parent ps f answer =
    ((k : ℕ) × (answer ≡ some k) × (bci ≤ k) × Attaches bci parent ps f k) ⊎ (answer ≡ none)

check_extends :
    (bci : ℕ) (parent : CachedBlock) (ps : List PendingBlock) (f : ForkStat)
    → bci + 1 < f.first_n
    → NumberedFrom bci ps
    → Checked bci parent ps f (
        if any (λ p. p.n == f.first_n - 1 && bytes_eq p.block_hash f.first_parent) ps
        then some (f.first_n - 1)
        else none)
check_extends bci parent ps f lt h =
    elim (Bool-cases (any (λ p. p.n == f.first_n - 1 && bytes_eq p.block_hash f.first_parent) ps)) [
      | inr e ↦ inr (rw e refl)
      | inl e ↦
          let (p, at, ok) = In-any _ ps e in
          let number : p.n ≡ f.first_n - 1 = ground arith in
          let same : bytes_eq p.block_hash f.first_parent ≡ true = ground arith in
          inl (
            p.n,
            rw (e, number) refl,
            omega (arith, In-NumberedFrom bci p ps h at),
            extends p at (omega arith) (In-NumberedFrom bci p ps h at)
                (sym (eq_of_bytes_eq p.block_hash f.first_parent same)),
          )
    ]

check_covers :
    (bci : ℕ) (parent : CachedBlock) (ps : List PendingBlock) (f : ForkStat)
    → f.first_n ≤ bci
    → Checked bci parent ps f
        (if any (λ h. bytes_eq h parent.block_hash) f.block_hashes then some bci else none)
check_covers bci parent ps f le =
    elim (Bool-cases (any (λ h. bytes_eq h parent.block_hash) f.block_hashes)) [
      | inr e ↦ inr (rw e refl)
      | inl e ↦
          let (h, at, ok) = In-any _ f.block_hashes e in
          inl (
            bci,
            rw e refl,
            omega arith,
            covers le (subst (λ x. In x f.block_hashes) (eq_of_bytes_eq h parent.block_hash ok) at),
          )
    ]

check_follows :
    (bci : ℕ) (parent : CachedBlock) (ps : List PendingBlock) (f : ForkStat)
    → f.first_n ≡ bci + 1
    → Checked bci parent ps f (if bytes_eq parent.block_hash f.first_parent then some bci else none)
check_follows bci parent ps f e = elim (Bool-cases (bytes_eq parent.block_hash f.first_parent)) [
  | inr e' ↦ inr (rw e' refl)
  | inl ok ↦
      inl (bci, rw ok refl, omega arith, follows e (sym (eq_of_bytes_eq parent.block_hash _ ok)))
]

check_from-Attaches :
    (bci : ℕ) (parent : CachedBlock) (ps : List PendingBlock) (f : ForkStat)
    → NumberedFrom bci ps
    → Checked bci parent ps f (check_from bci parent ps f)
check_from-Attaches bci parent ps f h = elim (Bool-cases (f.fork_last_n == 0)) [
  | inl e ↦
      inl (_, rw e refl, pending_back bci ps h, empty _ (ground arith) (pending_back bci ps h))
  | inr e ↦ rw e (elim (Bool-cases (leb f.first_n bci)) [
    | inl le ↦ rw le (check_covers bci parent ps f (ground arith))
    | inr lt ↦ rw lt (elim (Bool-cases (f.first_n == bci + 1)) [
      | inl eq ↦ rw eq (check_follows bci parent ps f (ground arith))
      | inr ne ↦ rw ne (check_extends bci parent ps f (ground arith) h)
    ])
  ])
]

-- In a valid state with a Byzantine commit index above 0 and a last committed block, the check
-- of the chosen fork always gives an answer: a refusal, or a number not below the index, where
-- the fork is empty, holds the last committed block, begins right behind it, or begins behind a
-- pending block, up to which the queue is kept.
pub check_byz_commit_invariant-Attaches :
    (f : ForkStat) (s : Staging) (parent : CachedBlock)
    → IsValid s
    → 0 < s.bci
    → s.curr_parent_for_pending ≡ some parent
    → (check_byz_commit_invariant f s ≡ done none)
      ⊎ ((k : ℕ) × (check_byz_commit_invariant f s ≡ done (some k))
          × (s.bci ≤ k)
          × Attaches s.bci parent s.pending_blocks f k)
unfolding check_byz_commit_invariant
check_byz_commit_invariant-Attaches f s parent v p e =
    elim (check_from-Attaches s.bci parent s.pending_blocks f (IsValid-NumberedFrom s v)) [
      | inr refused ↦ inl (ground (arith, e, refused))
      | inl (k, passed, le, a) ↦ inr (k, ground (arith, e, passed), le, a)
    ]
