-- ===== src/Staging/Commit/TwoHop.antt =====
-- Why the Byzantine commit index moves: a certificate by all nodes, or a certificate over a block
-- that carries a certificate.
use powder_raft.Common.{
  ℕ, ◌+◌, ◌≤◌, ◌<◌, ◌≡◌, refl, ap, List, [], ◌∷◌, Option, none, some, arith, leb, if◌then◌else◌,
  length, In, All-In, Option-cases, inl, inr, le-or-lt, ◌⊎◌, leb_of_le, true, Bool-cases, ◌∙◌, sym,
  subst,
}
use powder_raft.Types.{QuorumCertificate}
use powder_raft.Staging.State.{Staging, PendingBlock}
use powder_raft.Staging.Invariant.{
  IsValid, CertifiesEarlier, last_n, NumberedFrom, IsValid-NumberedFrom,
}
use powder_raft.Staging.Commit.{
  slow_path_bci, max_qc_up_to, max_qc, merge_max, maybe_byzantine_commit, Config, fast_path_bci,
  note_qc, max, byzantine_fast_path_threshold, do_byzantine_commit,
}
use powder_raft.Staging.Commit.Byzantine.{do_byzantine_commit-IsValid, bci-do_byzantine_commit}

-- Certificate `m` stands in a pending block with a number of `n` at most.
pub record TwoHop (n m : ℕ) (ps : List PendingBlock) : Type 0 where
  pub block : PendingBlock
  pub qc : QuorumCertificate
  pub pending : In block ps
  pub carried : In qc block.qc
  pub covered : block.n ≤ n
  pub number : qc.n ≡ m

max_qc-In :
    (qs : List QuorumCertificate) (m : ℕ)
    → max_qc qs ≡ some m
    → (q : QuorumCertificate) × In q qs × (q.n ≡ m)
unfolding max_qc
max_qc-In [] m h = cc
max_qc-In (q ∷ qs) m h = elim (Option-cases (max_qc qs)) [
  | inl e ↦ (q, inl refl, ground (arith, e))
  | inr (k, e) ↦ elim (le-or-lt q.n k) [
    | inl le ↦ let (q', at, number) = max_qc-In qs k e in (q', inr at, ground (arith, e, number))
    | inr lt ↦ (q, inl refl, ground (arith, e))
  ]
]

merge_max-cases : (a b : Option ℕ) (m : ℕ) → merge_max a b ≡ some m → (a ≡ some m) ⊎ (b ≡ some m)
merge_max-cases none b m h = inr h
merge_max-cases (some n) none m h = inl h
merge_max-cases (some n) (some k) m h = ground arith

later_TwoHop :
    (n m : ℕ) (p : PendingBlock) (ps : List PendingBlock) → TwoHop n m ps → TwoHop n m (p ∷ ps)
later_TwoHop n m p ps t = record {
  block = t.block;
  qc = t.qc;
  pending = inr t.pending;
  carried = t.carried;
  covered = t.covered;
  number = t.number;
}

here_TwoHop :
    (n m : ℕ) (p : PendingBlock) (ps : List PendingBlock)
    → (if leb p.n n then max_qc p.qc else none) ≡ some m
    → TwoHop n m (p ∷ ps)
here_TwoHop n m p ps h = elim (le-or-lt p.n n) [
  | inl le ↦
      let (q, at, number) = max_qc-In p.qc m (rw (leb_of_le p.n n le) at h) in
      record { block = p; qc = q; pending = inl refl; carried = at; covered = le; number = number }
  | inr lt ↦ absurd (ground (arith, h))
]

max_qc_up_to-TwoHop :
    (n m : ℕ) (ps : List PendingBlock) → max_qc_up_to n ps ≡ some m → TwoHop n m ps
unfolding max_qc_up_to
max_qc_up_to-TwoHop n m [] h = cc
max_qc_up_to-TwoHop n m (p ∷ ps) h =
    elim (merge_max-cases (if leb p.n n then max_qc p.qc else none) (max_qc_up_to n ps) m h) [
      | inl e ↦ here_TwoHop n m p ps e
      | inr e ↦ later_TwoHop n m p ps (max_qc_up_to-TwoHop n m ps e)
    ]

slow_path_bci-cases :
    (qc : QuorumCertificate) (s : Staging)
    → (slow_path_bci qc s ≡ s.bci) ⊎ TwoHop qc.n (slow_path_bci qc s) s.pending_blocks
unfolding slow_path_bci
slow_path_bci-cases qc s = elim (Option-cases (max_qc_up_to qc.n s.pending_blocks)) [
  | inl e ↦ inl (rw e refl)
  | inr (m, e) ↦ inr (rw e (max_qc_up_to-TwoHop qc.n m s.pending_blocks e))
]

-- A block of the queue has a number up to the last one.
NumberedFrom-le :
    (k : ℕ) (ps : List PendingBlock) (p : PendingBlock)
    → NumberedFrom k ps
    → In p ps
    → p.n ≤ k + length ps
NumberedFrom-le k [] p h m = elim m [ ]
NumberedFrom-le k (q ∷ qs) p h (inl e) = omega (arith, ap (λ (x : PendingBlock). x.n) e, h.0)
NumberedFrom-le k (q ∷ qs) p h (inr m) = omega (arith, NumberedFrom-le (k + 1) qs p h.1 m)

-- What a two-hop certificate commits lies in the queue.
TwoHop-le : (n m : ℕ) (s : Staging) → IsValid s → TwoHop n m s.pending_blocks → m ≤ last_n s
TwoHop-le n m s v t = omega (
  arith,
  t.number,
  NumberedFrom-le s.bci s.pending_blocks t.block (IsValid-NumberedFrom s v) t.pending,
  All-In (λ q. q.n < t.block.n) t.qc t.block.qc
      (All-In (λ p. CertifiesEarlier p.cached) t.block s.pending_blocks v.certified t.pending)
      t.carried,
)

note_qc-bci : (qc : QuorumCertificate) (s : Staging) → (note_qc qc s).bci ≡ s.bci
unfolding note_qc
note_qc-bci qc s = ground arith

note_qc-pending :
    (qc : QuorumCertificate) (s : Staging) → (note_qc qc s).pending_blocks ≡ s.pending_blocks
unfolding note_qc
note_qc-pending qc s = ground arith

note_qc-parent :
    (qc : QuorumCertificate) (s : Staging)
    → (note_qc qc s).curr_parent_for_pending ≡ s.curr_parent_for_pending
unfolding note_qc
note_qc-parent qc s = ground arith

note_qc-stable :
    (qc : QuorumCertificate) (s : Staging) → (note_qc qc s).view_is_stable ≡ s.view_is_stable
unfolding note_qc
note_qc-stable qc s = ground arith

note_qc-IsValid : (qc : QuorumCertificate) (s : Staging) → IsValid s → IsValid (note_qc qc s)
note_qc-IsValid qc s v = record {
  links = rw (note_qc-parent qc s, note_qc-pending qc s) v.links;
  parent = rw (note_qc-parent qc s, note_qc-bci qc s) v.parent;
  certified = rw (note_qc-pending qc s) v.certified;
}

-- The index that `maybe_byzantine_commit` goes to.
target : Config → QuorumCertificate → Staging → ℕ
target cfg qc s = max (fast_path_bci cfg qc s) (slow_path_bci qc s)

fast_path_bci-cases :
    (cfg : Config) (qc : QuorumCertificate) (s : Staging)
    → (fast_path_bci cfg qc s ≡ s.bci)
      ⊎ ((fast_path_bci cfg qc s ≡ qc.n)
          × (s.view_is_stable ≡ true)
          × (byzantine_fast_path_threshold cfg ≤ length qc.sig))
unfolding fast_path_bci
fast_path_bci-cases cfg qc s = ground arith

slow_path_bci-le :
    (qc : QuorumCertificate) (s : Staging) → IsValid s → slow_path_bci qc s ≤ last_n s
slow_path_bci-le qc s v = elim (slow_path_bci-cases qc s) [
  | inl e ↦ omega (arith, e)
  | inr t ↦ TwoHop-le qc.n (slow_path_bci qc s) s v t
]

target-le :
    (cfg : Config) (qc : QuorumCertificate) (s : Staging)
    → IsValid s
    → qc.n ≤ last_n s
    → target cfg qc s ≤ last_n s
unfolding target
target-le cfg qc s v hi = ground (arith, fast_path_bci-cases cfg qc s, slow_path_bci-le qc s v)

-- From a valid state, a certificate on a block up to the last one leads to a valid state,
-- whatever it commits.
pub maybe_byzantine_commit-IsValid :
    (cfg : Config) (qc : QuorumCertificate) (s : Staging)
    → IsValid s
    → qc.n ≤ last_n s
    → IsValid (maybe_byzantine_commit cfg qc s)
unfolding maybe_byzantine_commit target
maybe_byzantine_commit-IsValid cfg qc s v hi =
    do_byzantine_commit-IsValid (target cfg qc (note_qc qc s)) (note_qc qc s)
      (note_qc-IsValid qc s v)
      (target-le cfg qc (note_qc qc s) (note_qc-IsValid qc s v)
        (omega (arith, hi, note_qc-bci qc s, ap length (note_qc-pending qc s))))

-- Why a block is committed for good.
pub data Reason (cfg : Config) (qc : QuorumCertificate) (s : Staging) (n : ℕ) : Type 0 where
  unchanged : n ≡ s.bci → Reason cfg qc s n
  -- The fast path: the view is stable and all nodes have signed.
  all_signed :
      n ≡ qc.n
      → s.view_is_stable ≡ true
      → byzantine_fast_path_threshold cfg ≤ length qc.sig
      → Reason cfg qc s n
  -- The slow path.
  two_hops : TwoHop qc.n n s.pending_blocks → Reason cfg qc s n

target-Reason :
    (cfg : Config) (qc : QuorumCertificate) (s : Staging) → Reason cfg qc s (target cfg qc s)
unfolding target
target-Reason cfg qc s = elim (Bool-cases (leb (fast_path_bci cfg qc s) (slow_path_bci qc s))) [
  | inl e ↦
      rw e (elim (slow_path_bci-cases qc s) [ inl same ↦ unchanged same | inr t ↦ two_hops t ])
  | inr e ↦ rw e (elim (fast_path_bci-cases cfg qc s) [
    | inl same ↦ unchanged same
    | inr (same, stable, enough) ↦ all_signed same stable enough
  ])
]

-- The reasons after `note_qc` are those before it.
Reason-note_qc :
    (cfg : Config) (qc : QuorumCertificate) (s : Staging) (n : ℕ)
    → Reason cfg qc (note_qc qc s) n
    → Reason cfg qc s n
Reason-note_qc cfg qc s n (unchanged e) = unchanged (e ∙ note_qc-bci qc s)
Reason-note_qc cfg qc s n (all_signed e stable enough) =
    all_signed e (sym (note_qc-stable qc s) ∙ stable) enough
Reason-note_qc cfg qc s n (two_hops t) = two_hops (subst (TwoHop qc.n n) (note_qc-pending qc s) t)

Reason-do_byzantine_commit :
    (cfg : Config) (qc : QuorumCertificate) (s : Staging) (n : ℕ)
    → Reason cfg qc s n
    → Reason cfg qc s (do_byzantine_commit s.bci n s).bci
Reason-do_byzantine_commit cfg qc s n r =
    rw (bci-do_byzantine_commit n s)
      (elim (Bool-cases (leb n s.bci)) [ inl e ↦ rw e (unchanged refl) | inr e ↦ rw e r ])

-- The Byzantine commit index never falls. After a certificate it is what it was, or the
-- certificate's number, if the view is stable and the certificate carries as many signatures as
-- the fast path wants, or the number of a certificate that stands in a pending block which the
-- incoming certificate covers.
pub maybe_byzantine_commit-Reason :
    (cfg : Config) (qc : QuorumCertificate) (s : Staging)
    → (s.bci ≤ (maybe_byzantine_commit cfg qc s).bci)
      × Reason cfg qc s (maybe_byzantine_commit cfg qc s).bci
unfolding maybe_byzantine_commit target
maybe_byzantine_commit-Reason cfg qc s =
    let s' = note_qc qc s in
    (
      ground (arith, bci-do_byzantine_commit (target cfg qc s') s', note_qc-bci qc s),
      Reason-note_qc cfg qc s _
          (Reason-do_byzantine_commit cfg qc s' (target cfg qc s') (target-Reason cfg qc s')),
    )
