-- ===== src/ForkReceiver.antt =====
-- `ForkReceiver` of src/consensus/fork_receiver.rs: it checks the forks that other nodes send, and
-- hands them on in parts, one configuration at a time.
pub mod Parts
pub mod Checks
pub mod Commands
pub mod Blocked
pub mod Cases
pub mod Forwarding
pub mod Fates
use powder_raft.Common.{
  ℕ, true, Bool, map, bytes_eq, Bytes, back, none, some, front, length, false, ltb, sub64, map_or,
  Option, List, ◌-◌, ◌++◌, ◌∷◌, ◌&&◌, ◌||◌, ◌==◌, [], if◌then◌else◌,
}
use powder_raft.Types.{AppendEntries, HalfSerializedBlock, BlockHint, Name}
use powder_raft.Crypto.{get_parent_hash_in_proto_block_ser, Crypto}
use powder_raft.Common.Outcome.{Outcome, done, panicked, ◌>>=◌}
use powder_raft.Crypto.Service.{verify_block_ser}
use powder_raft.Config.{Config, byzantine_liveness_threshold}
use powder_raft.Staging.State.{AppendEntriesStats}

-- `last_ae_block_hash`: the hash comes once the last block of a part is verified.
pub data LastHash : Type 0 where
  no_hash : LastHash
  immediate : Bytes → LastHash
  future_result : ℕ → Bytes → LastHash

abbrev pub Part : Type 0
Part = List HalfSerializedBlock

-- `MultipartFork`: a part whose blocks are being verified.
pub record MultipartFork : Type 0 where
  pub part : Part
  pub remaining_parts : ℕ
  pub ae_stats : AppendEntriesStats
  pub min_qc_len : ℕ

-- To the broadcaster, or to the network for a nack.
pub data Command : Type 0 where
  forward : MultipartFork → Command
  backfill_nack : Name → AppendEntries → List BlockHint → ℕ → Command

pub record ForkReceiver : Type 0 where
  pub config : Config
  pub view : ℕ
  pub config_num : ℕ
  pub multipart_buffer : List (Part × AppendEntriesStats)
  pub blocked_on_multipart : Bool
  pub last_ae_view : ℕ
  pub last_ae_block_hash : LastHash
  pub waiting_on_nack_reply : Bool
  pub sent : List Command

unfoldable pub new : Config → ForkReceiver
new config = record {
  config = config;
  view = 0;
  config_num = 0;
  multipart_buffer = [];
  blocked_on_multipart = false;
  last_ae_view = 0;
  last_ae_block_hash = no_hash;
  waiting_on_nack_reply = false;
  sent = [];
}

-- What the log server answers to `CheckHash` and `GetHints`.
pub record Answers : Type 0 where
  pub check_hash : ℕ → Bytes → Bool
  pub get_hints : ℕ → List BlockHint

-- A fork with no block is a panic.
unfoldable pub first_block_n : AppendEntries → Outcome ℕ
first_block_n ae = elim ae.fork [
  | none ↦ done ae.commit_index
  | some blocks ↦ map_or panicked (λ b. done b.n) (front blocks)
]

unfoldable pub send_nack : Answers → Name → AppendEntries → ForkReceiver → Outcome ForkReceiver
unfolding first_block_n
send_nack answers sender ae s = do
  first_n ← first_block_n ae
  let last_index_needed = if ltb 100 first_n then first_n - 100 else 0
  done (record s {
    waiting_on_nack_reply = true;
    sent =
        s.sent
        ++ backfill_nack sender ae (answers.get_hints last_index_needed) last_index_needed ∷ [];
  })

-- The hash, once it is known.
unfoldable pub settled_hash : Crypto → LastHash → Option Bytes
settled_hash crypto no_hash = none
settled_hash crypto (immediate hsh) = some hsh
settled_hash crypto (future_result min_qc_len body) = crypto.verify_block_ser min_qc_len body

-- Whether the fork starts where the last one ended, or at a block of the log; and the state, which
-- keeps the hash it waited for.
unfoldable pub check_parent :
    Crypto → Answers → List HalfSerializedBlock → ForkReceiver → Outcome (Bool × ForkReceiver)
unfolding get_parent_hash_in_proto_block_ser settled_hash
check_parent crypto answers [] s = done (true, s)
check_parent crypto answers (first_block ∷ _) s = do
  parent_hash ←
      map_or panicked done (get_parent_hash_in_proto_block_ser first_block.serialized_body)
  let hsh = settled_hash crypto s.last_ae_block_hash
  let local_hash_check = map_or false (λ h. bytes_eq h parent_hash) hsh
  done (
    local_hash_check || answers.check_hash (sub64 first_block.n 1) parent_hash,
    record s { last_ae_block_hash = map_or no_hash immediate hsh },
  )

unfoldable pub ensure_common_prefix :
    Crypto → Answers → AppendEntries → ForkReceiver → Outcome (Bool × ForkReceiver)
unfolding check_parent
ensure_common_prefix crypto answers ae s = elim ae.fork [
  | none ↦ panicked
  | some blocks ↦ check_parent crypto answers blocks s
]

-- The view after the blocks, if the first block of each new view is not stable.
unfoldable pub check_views : ℕ → List HalfSerializedBlock → Option ℕ
check_views test_view [] = some test_view
check_views test_view (b ∷ bs) =
    if ltb test_view b.view && b.view_is_stable
    then none
    else check_views (if ltb test_view b.view then b.view else test_view) bs

-- The parts: each ends with the first block of the next configuration, which must not be stable.
-- `curr_part` holds the blocks that are not in a part yet.
unfoldable pub split_parts : ℕ → Part → List HalfSerializedBlock → Option (List Part)
split_parts curr_config curr_part [] =
    some (if ltb 0 (length curr_part) then curr_part ∷ [] else [])
split_parts curr_config curr_part (b ∷ bs) =
    let same = split_parts curr_config (curr_part ++ b ∷ []) bs in
    let next = split_parts b.config_num [] bs in
    if b.config_num == curr_config
    then same
    else if b.view_is_stable
    then none
    else elim next [ none ↦ none | some parts ↦ some ((curr_part ++ b ∷ []) ∷ parts) ]

abbrev pub to_forward : Part → ℕ → AppendEntriesStats → ForkReceiver → MultipartFork
to_forward part remaining_parts ae_stats s = record {
  part = part;
  remaining_parts = remaining_parts;
  ae_stats = ae_stats;
  min_qc_len = byzantine_liveness_threshold s.config;
}

-- `prepare_fork` and the send. The last block's hash is waited for; a part has a block.
unfoldable pub forward_part : Part → ℕ → AppendEntriesStats → ForkReceiver → Outcome ForkReceiver
unfolding byzantine_liveness_threshold
forward_part part remaining_parts ae_stats s = do
  b ← map_or panicked done (back part)
  done (record s {
    last_ae_block_hash = future_result (byzantine_liveness_threshold s.config) b.serialized_body;
    sent = s.sent ++ forward (to_forward part remaining_parts ae_stats s) ∷ [];
  })

abbrev pub stats_of : AppendEntries → Name → AppendEntriesStats
stats_of ae sender = record {
  view = ae.view;
  view_is_stable = ae.view_is_stable;
  config_num = ae.config_num;
  sender = sender;
  ci = ae.commit_index;
}

-- The first part goes on, the others wait for their configuration.
unfoldable pub forward_parts :
    AppendEntries → Name → List Part → ForkReceiver → Outcome ForkReceiver
unfolding forward_part
forward_parts ae sender [] s = done s
forward_parts ae sender (first_part ∷ parts) s = do
  s' ← forward_part first_part (length parts) (stats_of ae sender) s
  if ltb 0 (length parts)
      then if length s'.multipart_buffer == 0
        then done (record s' {
          multipart_buffer = map (λ part. (part, stats_of ae sender)) parts;
          blocked_on_multipart = true;
        })
        else panicked
      else done s'
