-- ===== src/Staging/Votes/Certificates.antt =====
-- The certificates that a leader makes.
use powder_raft.Common.{
  ℕ, ◌≤◌, ◌≡◌, refl, true, false, List, [], ◌∷◌, map, arith, length, In, All, Bool-cases, inl, inr,
  length-map, Empty, All-map, Bool, if◌then◌else◌,
}
use powder_raft.Types.{QuorumCertificate, NameWithSignature, Name, SignatureEntry}
use powder_raft.Staging.State.{PendingBlock}
use powder_raft.Staging.Votes.{
  certificate, is_certified, new_qcs, mark, byzantine_commit_threshold,
  byzantine_fast_path_threshold,
}
use powder_raft.Config.{Config, byzantine_commit_threshold, byzantine_fast_path_threshold}

-- The names and signatures of the votes, in their order.
abbrev pub Carries : List NameWithSignature → List (Name × SignatureEntry) → Type 0
Carries [] [] = Unit {0}
Carries (s ∷ sigs) ((name, e) ∷ votes) = (s.name ≡ name) × (s.sig ≡ e.sig) × Carries sigs votes
Carries _ _ = Empty {0}

-- A certificate that stands for a pending block and that a quorum has signed.
pub record Stands (v thresh : ℕ) (ps : List PendingBlock) (q : QuorumCertificate) : Type 0 where
  pub block : PendingBlock
  pub pending : In block ps
  pub number : q.n ≡ block.n
  pub view : q.view ≡ v
  pub digest : q.digest ≡ block.block_hash
  pub votes : Carries q.sig block.vote_sigs
  pub quorum : thresh ≤ length q.sig

Stands-later :
    (view thresh : ℕ) (p : PendingBlock) (ps : List PendingBlock) (qs : List QuorumCertificate)
    → All (Stands view thresh ps) qs
    → All (Stands view thresh (p ∷ ps)) qs
Stands-later view thresh p ps [] h = tt
Stands-later view thresh p ps (q ∷ qs) h = (
  record {
    block = h.0.block;
    pending = inr h.0.pending;
    number = h.0.number;
    view = h.0.view;
    digest = h.0.digest;
    votes = h.0.votes;
    quorum = h.0.quorum;
  },
  Stands-later view thresh p ps qs h.1,
)

length-certificate :
    (view : ℕ) (p : PendingBlock) → length (certificate view p).sig ≡ length p.vote_sigs
length-certificate view p = length-map _ p.vote_sigs

certificate-Carries :
    (votes : List (Name × SignatureEntry))
    → Carries
        (map (λ (e : Name × SignatureEntry). record { name = e.0; sig = e.1.sig }) votes)
        votes
certificate-Carries [] = tt
certificate-Carries ((name, e) ∷ votes) = (refl, refl, certificate-Carries votes)

certificate-Stands :
    (view thresh fast_thresh : ℕ) (p : PendingBlock) (ps : List PendingBlock)
    → thresh ≤ fast_thresh
    → is_certified thresh fast_thresh p ≡ true
    → Stands view thresh (p ∷ ps) (certificate view p)
certificate-Stands view thresh fast_thresh p ps le h =
    let votes = length-certificate view p in
    record {
      block = p;
      pending = inl refl;
      number = refl;
      view = refl;
      digest = refl;
      votes = certificate-Carries p.vote_sigs;
      quorum = ground (arith, votes);
    }

new_qcs-Stands :
    (view thresh fast_thresh : ℕ) (ps : List PendingBlock)
    → thresh ≤ fast_thresh
    → All (Stands view thresh ps) (new_qcs view thresh fast_thresh ps)
unfolding new_qcs
new_qcs-Stands view thresh fast_thresh [] le = tt
new_qcs-Stands view thresh fast_thresh (p ∷ ps) le =
    let rest =
      Stands-later view thresh p ps (new_qcs view thresh fast_thresh ps)
        (new_qcs-Stands view thresh fast_thresh ps le) in
    elim (Bool-cases (is_certified thresh fast_thresh p)) [
      | inl e ↦ rw e (certificate-Stands view thresh fast_thresh p ps le e, rest)
      | inr e ↦ rw e rest
    ]

mark_done :
    (thresh fast_thresh : ℕ) (p : PendingBlock)
    → is_certified thresh fast_thresh (mark thresh fast_thresh p) ≡ false
mark_done thresh fast_thresh p = ground arith

new_qcs_done :
    (view thresh fast_thresh : ℕ) (ps : List PendingBlock)
    → new_qcs view thresh fast_thresh (map (mark thresh fast_thresh) ps) ≡ []
unfolding new_qcs
new_qcs_done view thresh fast_thresh [] = refl
new_qcs_done view thresh fast_thresh (p ∷ ps) =
    rw (mark_done thresh fast_thresh p, new_qcs_done view thresh fast_thresh ps) refl

-- A block with enough votes that has no certificate yet, or no fast one and the votes of all.
pub data IsDue (thresh fast_thresh : ℕ) (p : PendingBlock) : Type 0 where
  first_one : p.qc_is_proposed ≡ false → thresh ≤ length p.vote_sigs → IsDue thresh fast_thresh p
  fast_one :
      p.fast_qc_is_proposed ≡ false
      → thresh ≤ fast_thresh
      → fast_thresh ≤ length p.vote_sigs
      → IsDue thresh fast_thresh p

IsDue-is_certified :
    (thresh fast_thresh : ℕ) (p : PendingBlock)
    → IsDue thresh fast_thresh p
    → is_certified thresh fast_thresh p ≡ true
IsDue-is_certified thresh fast_thresh p (first_one e le) = ground (arith, e, le)
IsDue-is_certified thresh fast_thresh p (fast_one e le fast) = ground (arith, e, le, fast)

-- A certificate for the block is among these.
pub record IsServed (qs : List QuorumCertificate) (p : PendingBlock) : Type 0 where
  pub qc : QuorumCertificate
  pub made : In qc qs
  pub number : qc.n ≡ p.n
  pub digest : qc.digest ≡ p.block_hash

IsServed-later :
    (thresh fast_thresh : ℕ) (q : QuorumCertificate) (qs : List QuorumCertificate)
    (ps : List PendingBlock)
    → All (λ p. IsDue thresh fast_thresh p → IsServed qs p) ps
    → All (λ p. IsDue thresh fast_thresh p → IsServed (q ∷ qs) p) ps
IsServed-later thresh fast_thresh q qs ps = All-map _ _ ps λ p h due.
    let r = h due in record { qc = r.qc; made = inr r.made; number = r.number; digest = r.digest }

new_qcs-IsServed :
    (view thresh fast_thresh : ℕ) (ps : List PendingBlock)
    → All (λ p. IsDue thresh fast_thresh p → IsServed (new_qcs view thresh fast_thresh ps) p) ps
unfolding new_qcs
new_qcs-IsServed view thresh fast_thresh [] = tt
new_qcs-IsServed view thresh fast_thresh (p ∷ ps) =
    go (is_certified thresh fast_thresh p) refl (new_qcs-IsServed view thresh fast_thresh ps)
  where
    later_ones : List QuorumCertificate
    later_ones = new_qcs view thresh fast_thresh ps

    go :
        (certified : Bool)
        → is_certified thresh fast_thresh p ≡ certified
        → All (λ q. IsDue thresh fast_thresh q → IsServed later_ones q) ps
        → All
            (λ q.
              IsDue thresh fast_thresh q
              → IsServed (if certified then certificate view p ∷ later_ones else later_ones) q)
            (p ∷ ps)
    go true e rest = (
      (λ due. record { qc = certificate view p; made = inl refl; number = refl; digest = refl }),
      IsServed-later thresh fast_thresh (certificate view p) later_ones ps rest,
    )
    go false e rest =
        ((λ due. absurd (ground (arith, e, IsDue-is_certified thresh fast_thresh p due))), rest)

-- Every certificate that is made stands for a pending block, with its number and hash, in the view
-- given, and carries the names and signatures of that block's votes, as many as a Byzantine quorum or
-- more. A certificate is made for every block with so many votes that has none yet, and for every
-- block with the votes of all nodes that has no fast one yet. Once the blocks are marked, the same
-- votes make no certificate again.
pub new_qcs-Quorum :
    (cfg : Config) (view : ℕ) (ps : List PendingBlock)
    → All
        (Stands view (byzantine_commit_threshold cfg) ps)
        (new_qcs view (byzantine_commit_threshold cfg) (byzantine_fast_path_threshold cfg) ps)
      × All
          (λ p.
            IsDue (byzantine_commit_threshold cfg) (byzantine_fast_path_threshold cfg) p
            → IsServed
                (new_qcs view
                  (byzantine_commit_threshold cfg)
                  (byzantine_fast_path_threshold cfg)
                  ps)
                p)
          ps
      × (new_qcs view
            (byzantine_commit_threshold cfg)
            (byzantine_fast_path_threshold cfg)
            (map (mark (byzantine_commit_threshold cfg) (byzantine_fast_path_threshold cfg)) ps)
          ≡ [])
unfolding byzantine_commit_threshold byzantine_fast_path_threshold
new_qcs-Quorum cfg view ps = (
  new_qcs-Stands view (byzantine_commit_threshold cfg) (byzantine_fast_path_threshold cfg) ps
      (ground arith),
  new_qcs-IsServed view (byzantine_commit_threshold cfg) (byzantine_fast_path_threshold cfg) ps,
  new_qcs_done view (byzantine_commit_threshold cfg) (byzantine_fast_path_threshold cfg) ps,
)
