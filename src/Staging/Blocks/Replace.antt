-- ===== src/Staging/Blocks/Replace.antt =====
-- A rollback, and the block that takes the place of what is pending in an unstable view.
use powder_raft.Common.{
  ◌+◌, ◌<◌, ◌≡◌, refl, sym, subst, Bool, true, List, [], ◌∷◌, Option, none, some, arith, length, ap,
  ℕ, retain, ◌≤◌, leb, Bool-cases, le-or-lt, inl, inr, leb_of_le, leb_of_lt, retain-All, not, ◌||◌,
  false, u64_mod, sub64_exact, if◌then◌else◌, sub64,
}
use powder_raft.Types.{CachedBlock}
use powder_raft.Chain.{Links, up_to, Links-up_to}
use powder_raft.Staging.State.{Staging, PendingBlock, blocks_of, AppendEntriesStats}
use powder_raft.Staging.Invariant.{
  IsValid, PendingLinks, CertifiesEarlier, last_n, NumberedFrom, Links-NumberedFrom,
  IsValid-NumberedFrom,
}
use powder_raft.Staging.Commit.{check_continuity, rollback}
use powder_raft.Staging.Blocks.{push_block, rollback, follow_stability, make_way}
use powder_raft.Staging.Blocks.Order.{push_block-IsValid}

blocks_of-retain :
    (n : ℕ) (ps : List PendingBlock)
    → blocks_of (retain (λ p. leb p.n n) ps) ≡ up_to n (blocks_of ps)
blocks_of-retain n [] = refl
blocks_of-retain n (p ∷ ps) = elim (Bool-cases (leb p.n n)) [
  | inl e ↦ rw (e, blocks_of-retain n ps) refl
  | inr e ↦ rw (e, blocks_of-retain n ps) refl
]

retain_beyond :
    (n k : ℕ) (ps : List PendingBlock) → NumberedFrom k ps → n ≤ k → retain (λ p. leb p.n n) ps ≡ []
retain_beyond n k [] h le = refl
retain_beyond n k (p ∷ ps) h le = ground (arith, h.0, retain_beyond n (k + 1) ps h.1)

PendingLinks-retain :
    (n : ℕ) (o : Option CachedBlock) (ps : List PendingBlock)
    → PendingLinks o ps
    → PendingLinks o (retain (λ p. leb p.n n) ps)
PendingLinks-retain n none [] h = tt
PendingLinks-retain n (some a) ps h =
    subst (Links a) (sym (blocks_of-retain n ps)) (Links-up_to n a (blocks_of ps) h)
PendingLinks-retain n none (p ∷ ps) h = elim (le-or-lt p.n n) [
  | inl le ↦ rw (leb_of_le p.n n le) (
    h.0,
    subst (Links p.cached) (sym (blocks_of-retain n ps))
        (Links-up_to n p.cached (blocks_of ps) h.1),
  )
  | inr lt ↦
      rw
        (
          leb_of_lt p.n n lt,
          retain_beyond n p.n ps (Links-NumberedFrom p.cached ps p.n refl h.1) (omega arith),
        )
        tt
]

pub rollback-IsValid : (n : ℕ) (s : Staging) → IsValid s → IsValid (rollback n s)
unfolding rollback
rollback-IsValid n s v = record {
  links = PendingLinks-retain n s.curr_parent_for_pending s.pending_blocks v.links;
  parent = v.parent;
  certified = retain-All (λ p. CertifiesEarlier p.cached) _ s.pending_blocks v.certified;
}

length-rollback :
    (n k : ℕ) (ps : List PendingBlock)
    → NumberedFrom k ps
    → k ≤ n
    → k + length (retain (λ p. leb p.n n) ps) ≤ n
length-rollback n k [] h le = omega arith
length-rollback n k (p ∷ ps) h le = elim (le-or-lt p.n n) [
  | inl le' ↦
      rw (leb_of_le p.n n le')
        (omega (arith, length-rollback n (k + 1) ps h.1 (omega (arith, h.0))))
  | inr lt ↦
      rw (leb_of_lt p.n n lt, retain_beyond n (k + 1) ps h.1 (omega (arith, h.0))) (omega arith)
]

follow_stability-IsValid :
    (st : AppendEntriesStats) (s : Staging) → IsValid s → IsValid (follow_stability st s)
unfolding follow_stability
follow_stability-IsValid st s v = elim (Bool-cases (s.view_is_stable || not st.view_is_stable)) [
  | inl e ↦ rw e (record { links = v.links; parent = v.parent; certified = v.certified })
  | inr e ↦ rw e v
]

follow_stability-bci : (st : AppendEntriesStats) (s : Staging) → (follow_stability st s).bci ≡ s.bci
unfolding follow_stability
follow_stability-bci st s = elim (Bool-cases (s.view_is_stable || not st.view_is_stable)) [
  | inl e ↦ rw e refl
  | inr e ↦ rw e refl
]

last_n-rollback : (n : ℕ) (s : Staging) → IsValid s → s.bci ≤ n → last_n (rollback n s) ≤ n
unfolding rollback
last_n-rollback n s v le = length-rollback n s.bci s.pending_blocks (IsValid-NumberedFrom s v) le

if_true {ℓ} : {A : Type ℓ} (c : Bool) (x y : A) → c ≡ true → (if c then x else y) ≡ x
if_true c x y e = rw e refl

if_false {ℓ} : {A : Type ℓ} (c : Bool) (x y : A) → c ≡ false → (if c then x else y) ≡ y
if_false c x y e = rw e refl

-- In an unstable view, a block whose number is above the Byzantine commit index finds a queue that
-- ends before it.
make_way-room :
    (b : CachedBlock) (st : AppendEntriesStats) (s : Staging)
    → IsValid s
    → s.bci < b.n
    → b.n < u64_mod
    → (make_way b st s).view_is_stable ≡ false
    → IsValid (make_way b st s) × (last_n (make_way b st s) < b.n)
unfolding make_way
make_way-room b st s v lt w u = elim (Bool-cases (follow_stability st s).view_is_stable) [
  | inl e ↦
      let stays : make_way b st s ≡ follow_stability st s =
        if_true (follow_stability st s).view_is_stable _ _ e in
      absurd (ground (arith, ap (λ (x : Staging). x.view_is_stable) stays, e, u))
  | inr e ↦
      let v' = follow_stability-IsValid st s v in
      let target = sub64_exact b.n 1 (omega arith) w in
      let le =
        last_n-rollback (sub64 b.n 1) (follow_stability st s) v'
          (omega (arith, target, follow_stability-bci st s)) in
      let way : make_way b st s ≡ rollback (sub64 b.n 1) (follow_stability st s) =
        if_false (follow_stability st s).view_is_stable _ _ e in
      subst (λ x. IsValid x × (last_n x < b.n)) (sym way)
        (rollback-IsValid (sub64 b.n 1) (follow_stability st s) v', omega (arith, le, target))
]

-- From a valid state in a view that is unstable, or that the block's sender says is unstable, a
-- block above the Byzantine commit index first replaces what is pending from its number on; if
-- it then passes the continuity check, and its certificates are about earlier blocks, it joins
-- the queue and the state is valid.
pub make_way-IsValid :
    (b : CachedBlock) (st : AppendEntriesStats) (final : Bool) (s : Staging)
    → IsValid s
    → CertifiesEarlier b
    → s.bci < b.n
    → b.n < u64_mod
    → (make_way b st s).view_is_stable ≡ false
    → check_continuity b (make_way b st s) ≡ true
    → IsValid (push_block b final (make_way b st s))
make_way-IsValid b st final s v q lt w u c =
    let (v', room) = make_way-room b st s v lt w u in
    push_block-IsValid b final (make_way b st s) v' q c room
