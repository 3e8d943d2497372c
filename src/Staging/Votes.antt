-- ===== src/Staging/Votes.antt =====
-- Votes and certificates in src/consensus/staging/steady_state.rs.
pub mod Certificates
pub mod Replication
use powder_raft.Common.{
  ℕ, Bool, true, false, ◌&&◌, ◌||◌, not, List, [], ◌∷◌, ◌++◌, Option, none, some, map, leb, ◌==◌,
  if◌then◌else◌, bytes_eq, Bytes-discrete, retain, any, front, back, length, map_or, insert,
}
use powder_raft.Common.Outcome.{Outcome, done, failed, ◌>>=◌}
use powder_raft.Types.{Name, QuorumCertificate, SignatureEntry, Vote}
use powder_raft.Config.{
  Config, byzantine_commit_threshold, byzantine_fast_path_threshold, get_leader_for_view,
}
use powder_raft.Crypto.{Crypto, signature_length}
use powder_raft.Staging.State.{
  Staging, PendingBlock, emit, send_qc, send_vote, await_storage, is_signed,
}
use powder_raft.Staging.Commit.{maybe_crash_commit, maybe_byzantine_commit}
use powder_raft.Staging.ViewChange.{maybe_stabilize_view}

-- `HashSet::insert`.
abbrev pub contains : Name → List Name → Bool
contains name = any (λ x. bytes_eq x name)

unfoldable pub insert_name : Name → List Name → List Name
insert_name name set = if contains name set then set else set ++ name ∷ []

-- The signatures on block `n`; the last one stays.
unfoldable pub insert_sigs :
    Name → ℕ → List SignatureEntry → List (Name × SignatureEntry) → List (Name × SignatureEntry)
insert_sigs sender n [] sigs = sigs
insert_sigs sender n (e ∷ es) sigs =
    insert_sigs sender n es (if e.n == n then insert Bytes-discrete sender e sigs else sigs)

-- What a vote adds to one block.
unfoldable pub vote_block : Name → ℕ → List SignatureEntry → PendingBlock → PendingBlock
unfolding insert_name insert_sigs
vote_block sender vote_n sig_array p =
    let replicas =
      if leb p.n vote_n then insert_name sender p.replication_set else p.replication_set in
    let sigs =
      if is_signed p.sig then insert_sigs sender p.n sig_array p.vote_sigs else p.vote_sigs in
    record p { replication_set = replicas; vote_sigs = sigs }

-- `sig_array.retain(..)`: a signed block takes the signatures on it out of the vote.
abbrev pub sigs_left : List SignatureEntry → PendingBlock → List SignatureEntry
sigs_left sig_array p =
    if is_signed p.sig then retain (λ e. not (e.n == p.n)) sig_array else sig_array

-- The loop of `process_vote`: a vote on a block is one on all its ancestors.
unfoldable pub vote_blocks : Name → ℕ → List SignatureEntry → List PendingBlock → List PendingBlock
unfolding vote_block
vote_blocks sender vote_n sig_array [] = []
vote_blocks sender vote_n sig_array (p ∷ ps) =
    vote_block sender vote_n sig_array p ∷ vote_blocks sender vote_n (sigs_left sig_array p) ps

-- The certificate for a block.
abbrev pub certificate : ℕ → PendingBlock → QuorumCertificate
certificate view p = record {
  n = p.n;
  view = view;
  sig = map (λ (e : Name × SignatureEntry). record { name = e.0; sig = e.1.sig }) p.vote_sigs;
  digest = p.block_hash;
}

-- The votes that a block still wants for a certificate.
abbrev pub wanted : ℕ → ℕ → PendingBlock → ℕ
wanted thresh fast_thresh p = if p.qc_is_proposed then fast_thresh else thresh

abbrev pub is_certified : ℕ → ℕ → PendingBlock → Bool
is_certified thresh fast_thresh p =
    not (p.qc_is_proposed && p.fast_qc_is_proposed)
    && leb (wanted thresh fast_thresh p) (length p.vote_sigs)

-- The first loop of `maybe_create_qcs`: the new certificates.
unfoldable pub new_qcs : ℕ → ℕ → ℕ → List PendingBlock → List QuorumCertificate
new_qcs view thresh fast_thresh [] = []
new_qcs view thresh fast_thresh (p ∷ ps) =
    let rest = new_qcs view thresh fast_thresh ps in
    if is_certified thresh fast_thresh p then certificate view p ∷ rest else rest

-- The same loop: the marks on the blocks.
abbrev pub mark : ℕ → ℕ → PendingBlock → PendingBlock
mark thresh fast_thresh p =
    if is_certified thresh fast_thresh p
    then record p {
      qc_is_proposed = true;
      fast_qc_is_proposed = leb fast_thresh (length p.vote_sigs) || p.fast_qc_is_proposed;
    }
    else p

abbrev pub maybe_stabilize : Config → QuorumCertificate → Staging → Outcome Staging
maybe_stabilize cfg qc s = elim s.view_is_stable [
  | true ↦ done s
  | false ↦ maybe_stabilize_view cfg qc s
]

-- The second loop.
unfoldable pub use_qcs : Config → List QuorumCertificate → Staging → Outcome Staging
use_qcs cfg [] s = done s
use_qcs cfg (qc ∷ qcs) s = do
  s' ← maybe_stabilize cfg qc s
  use_qcs cfg qcs (maybe_byzantine_commit cfg qc (emit (send_qc qc ∷ []) s'))

unfoldable pub maybe_create_qcs : Config → Staging → Outcome Staging
unfolding new_qcs use_qcs
maybe_create_qcs cfg s =
    let thresh = byzantine_commit_threshold cfg in
    let fast_thresh = byzantine_fast_path_threshold cfg in
    use_qcs cfg (new_qcs s.view thresh fast_thresh s.pending_blocks)
      (record s { pending_blocks = map (mark thresh fast_thresh) s.pending_blocks })

-- Whether the vote is about a pending block.
abbrev pub in_range : ℕ → List PendingBlock → Bool
in_range n ps = map_or false (λ p. leb p.n n) (front ps) && map_or false (λ p. leb n p.n) (back ps)

unfoldable pub process_vote : Config → Name → Vote → Staging → Outcome Staging
unfolding vote_blocks maybe_create_qcs
process_vote cfg sender vote s =
    if not (s.view == vote.view)
    then done s
    else if not (in_range vote.n s.pending_blocks)
    then done s
    else maybe_create_qcs cfg (
        maybe_crash_commit cfg
          (record s { pending_blocks = vote_blocks sender vote.n vote.sig_array s.pending_blocks }))

-- Whether a signature in a vote has the length of one.
abbrev pub is_well_formed : SignatureEntry → Bool
is_well_formed e = length e.sig == signature_length

-- `binary_search_by` on the numbers of the queue.
unfoldable pub find_pending : ℕ → List PendingBlock → Option PendingBlock
find_pending n [] = none
find_pending n (p ∷ ps) = if p.n == n then some p else find_pending n ps

-- Whether the signatures on pending blocks are well formed, and whether they verify.
abbrev pub sig_fits :
    (PendingBlock → SignatureEntry → Bool) → List PendingBlock → SignatureEntry → Bool
sig_fits ok ps e = map_or true (λ p. ok p e) (find_pending e.n ps)

unfoldable pub all_fit :
    (PendingBlock → SignatureEntry → Bool) → List PendingBlock → List SignatureEntry → Bool
unfolding find_pending
all_fit ok ps [] = true
all_fit ok ps (e ∷ es) = sig_fits ok ps e && all_fit ok ps es

unfoldable pub verify_and_process_vote : Config → Crypto → Name → Vote → Staging → Outcome Staging
unfolding all_fit
verify_and_process_vote cfg crypto sender vote s =
    if not (all_fit (λ p e. is_well_formed e) s.pending_blocks vote.sig_array)
    then done s
    else if not
        (all_fit (λ p e. crypto.verify p.block_hash sender e.sig) s.pending_blocks vote.sig_array)
    then done s
    else process_vote cfg sender vote s

-- A vote on the last block of the queue.
abbrev pub vote_on : List SignatureEntry → PendingBlock → Staging → Vote
vote_on sig_array last s = record {
  sig_array = sig_array;
  fork_digest = last.block_hash;
  n = last.n;
  view = s.view;
  config_num = s.config_num;
}

-- This node's signature on a block that carries one.
abbrev pub my_sigs : Crypto → PendingBlock → List SignatureEntry
my_sigs crypto p =
    if is_signed p.sig then record { n = p.n; sig = crypto.sign p.block_hash } ∷ [] else []

-- The wait for all storage acknowledgements.
abbrev pub await_all : ℕ → Staging → Staging
await_all ack s =
    emit (await_storage (s.storage_ack_buffer ++ ack ∷ []) ∷ [])
      (record s { storage_ack_buffer = [] })

unfoldable pub vote_on_last_block_for_self : Config → Crypto → ℕ → Staging → Outcome Staging
vote_on_last_block_for_self cfg crypto storage_ack s = elim (back s.pending_blocks) [
  | none ↦ failed
  | some last ↦
      let s' = await_all storage_ack s in
      process_vote cfg cfg.name (vote_on (my_sigs crypto last) last s') s'
]

-- All signatures for which no certificate has come yet are sent again with a signed block.
abbrev pub resent : PendingBlock → Staging → List SignatureEntry
resent last s = if is_signed last.sig then map (λ e. e.1) s.pending_signatures else []

unfoldable pub send_vote_on_last_block_to_leader : Config → Crypto → ℕ → Staging → Outcome Staging
send_vote_on_last_block_to_leader cfg crypto storage_ack s = elim (back s.pending_blocks) [
  | none ↦ failed
  | some last ↦
      let s' = await_all storage_ack s in
      let mine = my_sigs crypto last in
      done (
        emit
          (send_vote (get_leader_for_view cfg s.view) (vote_on (resent last s' ++ mine) last s')
            ∷ [])
          (record s' {
            pending_signatures =
                s'.pending_signatures ++ map (λ (e : SignatureEntry). (last.n, e)) mine;
          }))
]
