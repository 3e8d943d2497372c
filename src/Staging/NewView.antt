-- ===== src/Staging/NewView.antt =====
-- The new leader's part of a view change: `propose_new_view` of
-- src/consensus/staging/view_change.rs with the functions that it calls.
pub mod Attach
use powder_raft.Common.{
  ℕ, ◌+◌, ◌-◌, ◌&&◌, ◌||◌, not, List, [], ◌∷◌, ◌++◌, Option, none, some, ltb, leb, ◌==◌,
  if◌then◌else◌, Bytes, bytes_eq, retain, any, front, back, map_or, lookup,
}
use powder_raft.Common.Outcome.{Outcome, done, panicked, ◌>>=◌}
use powder_raft.Types.{
  CachedBlock, HalfSerializedBlock, ViewChange, ForkValidation, SenderType, anon, auth, Name,
}
use powder_raft.Config.{
  Config, i_am_leader, byzantine_liveness_threshold, fast_path_selection_threshold,
}
use powder_raft.Crypto.{
  Crypto, default_hash, get_parent_hash_in_proto_block_ser, hash_proto_block_ser,
}
use powder_raft.ForkChoice.{ForkStat, Stats, SenderType-discrete, fork_choice_filter}
use powder_raft.Staging.State.{
  Staging, PendingBlock, new_view_message, next_ae_fork_prefix, app_rollback, emit,
}

abbrev pub Forks : Type 0
Forks = List (SenderType × ViewChange)

-- `unwrap()` and `expect(..)`.
abbrev pub unwrap {ℓ} : {A : Type ℓ} → Option A → Outcome A
unwrap none = panicked
unwrap (some a) = done a

-- The parent hashes of the blocks behind the first.
unfoldable pub parent_hashes : List HalfSerializedBlock → Outcome (List Bytes)
parent_hashes [] = done []
parent_hashes (b ∷ bs) = do
  h ← unwrap (get_parent_hash_in_proto_block_ser b.serialized_body)
  hs ← parent_hashes bs
  done (h ∷ hs)

-- A block shorter than the signature and the hash makes the slices panic.
unfoldable pub hash_last : Crypto → HalfSerializedBlock → Outcome Bytes
hash_last crypto b = elim (get_parent_hash_in_proto_block_ser b.serialized_body) [
  | none ↦ panicked
  | some _ ↦ done (hash_proto_block_ser crypto b.serialized_body)
]

-- The hashes of a fork's blocks: each but the last is read from the block behind it.
abbrev pub fork_hashes : Crypto → List HalfSerializedBlock → Outcome (List Bytes)
fork_hashes crypto [] = done []
fork_hashes crypto (b ∷ bs) = do
  last ← unwrap (back (b ∷ bs))
  last_hash ← hash_last crypto last
  hs ← parent_hashes bs
  done (hs ++ last_hash ∷ [])

abbrev pub first_parent_of : List HalfSerializedBlock → Bytes
first_parent_of [] = default_hash
first_parent_of (b ∷ _) =
    map_or default_hash (λ h. h) (get_parent_hash_in_proto_block_ser b.serialized_body)

abbrev pub stat_with : List Bytes → List HalfSerializedBlock → ViewChange → ForkStat
stat_with hashes blocks vc = record {
  block_hashes = hashes;
  fork_last_n = map_or 0 (λ b. b.n) (back blocks);
  first_n = map_or 0 (λ b. b.n) (front blocks);
  first_parent = first_parent_of blocks;
  last_qc = vc.fork_last_qc;
  last_view = map_or 0 (λ b. b.view) (back blocks);
  last_config_num = map_or 0 (λ b. b.config_num) (back blocks);
}

unfoldable pub vc_to_stats : Crypto → Forks → Outcome Stats
unfolding hash_last parent_hashes
vc_to_stats crypto [] = done []
vc_to_stats crypto ((sender, vc) ∷ forks) = do
  blocks ← unwrap vc.fork
  hashes ← fork_hashes crypto blocks
  rest ← vc_to_stats crypto forks
  done ((sender, stat_with hashes blocks vc) ∷ rest)

abbrev pub name_of : SenderType → Name
name_of anon = 65 ∷ 110 ∷ 111 ∷ 110 ∷ []
name_of (auth name _) = name

-- `stats_to_validation`
unfoldable pub stats_to_validation : Forks → Stats → Outcome (List ForkValidation)
stats_to_validation forks [] = done []
stats_to_validation forks ((sender, stat) ∷ stats) = do
  vc ← unwrap (lookup SenderType-discrete sender forks)
  rest ← stats_to_validation forks stats
  done (
      record {
        vc_view = vc.view;
        vc_config_num = vc.config_num;
        block_hashes = stat.block_hashes;
        fork_last_n = stat.fork_last_n;
        fork_last_qc = stat.last_qc;
        fork_last_view = stat.last_view;
        fork_last_config_num = stat.last_config_num;
        vc_sig = vc.fork_sig;
        sender = name_of sender;
      }
      ∷ rest)

-- The hashes of the blocks of the chosen fork, each verified again.
unfoldable pub verified_hashes : Crypto → ℕ → List HalfSerializedBlock → Outcome (List Bytes)
verified_hashes crypto min_qc_len [] = done []
verified_hashes crypto min_qc_len (b ∷ bs) = do
  h ← unwrap (crypto.verify_block_ser min_qc_len b.serialized_body)
  hs ← verified_hashes crypto min_qc_len bs
  done (h ∷ hs)

abbrev pub checked_parent : List HalfSerializedBlock → Outcome Bytes
checked_parent [] = done default_hash
checked_parent (b ∷ _) = unwrap (get_parent_hash_in_proto_block_ser b.serialized_body)

-- `send_blocks_to_broadcaster_and_get_stats`
unfoldable pub send_blocks : Config → Crypto → ViewChange → Staging → Outcome (ForkStat × Staging)
unfolding verified_hashes
send_blocks cfg crypto vc s = do
  blocks ← unwrap vc.fork
  hashes ← verified_hashes crypto (byzantine_liveness_threshold cfg) blocks
  parent ← checked_parent blocks
  done (
    record (stat_with hashes blocks vc) { first_parent = parent },
    emit (next_ae_fork_prefix blocks ∷ []) s,
  )

-- `apply_fork_choice_rule`: the chosen fork, which is the first that the filter leaves.
unfoldable pub apply_fork_choice_rule :
    Config → Crypto → Forks → Staging → Outcome (ForkStat × List ForkValidation × Staging)
unfolding vc_to_stats stats_to_validation send_blocks
apply_fork_choice_rule cfg crypto forks s = do
  stats ← vc_to_stats crypto forks
  validation ← stats_to_validation forks stats
  applicable ← fork_choice_filter (fast_path_selection_threshold cfg) stats
  sender ← unwrap (front applicable)
  vc ← unwrap (lookup SenderType-discrete sender forks)
  (stat, s') ← send_blocks cfg crypto vc s
  done (stat, validation, s')

-- Invariant <ByzCommit>: the number to retain, `none` if the fork contradicts what is committed.
abbrev pub check_from : ℕ → CachedBlock → List PendingBlock → ForkStat → Option ℕ
check_from bci curr_parent pending fork =
    if fork.fork_last_n == 0
    then some (map_or bci (λ p. p.n) (back pending))
    else if leb fork.first_n bci
    then (if any (λ h. bytes_eq h curr_parent.block_hash) fork.block_hashes then some bci else none)
    else if fork.first_n == bci + 1
    then (if bytes_eq curr_parent.block_hash fork.first_parent then some bci else none)
    else if any (λ p. p.n == fork.first_n - 1 && bytes_eq p.block_hash fork.first_parent) pending
    then some (fork.first_n - 1)
    else none

unfoldable pub check_byz_commit_invariant : ForkStat → Staging → Outcome (Option ℕ)
check_byz_commit_invariant fork s =
    if s.bci == 0 then done (some 0) else (elim s.curr_parent_for_pending [
      | none ↦ panicked
      | some curr_parent ↦ done (check_from s.bci curr_parent s.pending_blocks fork)
    ])

-- The clean-up of the pending queue and of `ci`.
unfoldable pub retain_for_new_view : ℕ → Staging → Staging
retain_for_new_view retain_n s =
    let s' = record s { pending_blocks = retain (λ p. leb p.n retain_n) s.pending_blocks } in
    if ltb retain_n s'.ci
    then emit (app_rollback retain_n ∷ []) (record s' { ci = retain_n })
    else s'

-- The parent of the new view's first block.
abbrev pub new_parent_hash : ForkStat → Staging → Bytes
new_parent_hash fork s =
    map_or
      (map_or (map_or default_hash (λ b. b.block_hash) s.curr_parent_for_pending)
        (λ p. p.block_hash) (back s.pending_blocks))
      (λ h. h) (back fork.block_hashes)

unfoldable pub propose_new_view : Config → Crypto → ℕ → ℕ → Forks → Staging → Outcome Staging
unfolding apply_fork_choice_rule check_byz_commit_invariant retain_for_new_view
propose_new_view cfg crypto view_num config_num forks s =
    if not (view_num == s.view) || not (config_num == s.config_num)
    then done s
    else if s.view_is_stable || not (i_am_leader cfg s.view)
    then done s
    else (do
      (chosen, validation, s') ← apply_fork_choice_rule cfg crypto forks s
      checked ← check_byz_commit_invariant chosen s'
      retain_n ← unwrap checked
      let s'' = retain_for_new_view retain_n s'
      done (
          emit
            (new_view_message s''.view s''.config_num validation (new_parent_hash chosen s'')
                chosen.fork_last_n
              ∷ [])
            s''))
