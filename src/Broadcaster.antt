-- ===== src/Broadcaster.antt =====
-- `BlockBroadcaster` of src/consensus/block_broadcaster.rs: it stores blocks and hands them to
-- staging, and sends the own ones to the other nodes.
pub mod Stored
use powder_raft.Common.{
  ℕ, Bool, some, Option, leb, not, true, map, retain, false, bytes_eq, none, List, length, ◌-◌,
  ◌++◌, ◌∷◌, [], if◌then◌else◌,
}
use powder_raft.Types.{half_serialized, CachedBlock, Name, AppendEntries}
use powder_raft.App.{new_request_batch, AppCommand}
use powder_raft.Common.Outcome.{Outcome, panicked, done}
use powder_raft.Staging.State.{AppendEntriesStats}
use powder_raft.Config.{Config}

-- To storage, staging, the application, the other nodes (with the number of answers to wait for) and
-- the fork receiver.
pub data Command : Type 0 where
  put_block : CachedBlock → Command
  to_staging : CachedBlock → AppendEntriesStats → Bool → Command
  to_app : AppCommand → Command
  broadcast : List Name → AppendEntries → ℕ → Command
  multipart_nack : ℕ → Command

pub record Broadcaster : Type 0 where
  pub config : Config
  pub learner_list : List Name
  pub ci : ℕ
  pub fork_prefix_buffer : List CachedBlock
  pub sent : List Command

abbrev pub emit : List Command → Broadcaster → Broadcaster
emit cmds s = record s { sent = s.sent ++ cmds }

unfoldable pub get_everyone_except_me : Broadcaster → List Name
get_everyone_except_me s =
    retain (λ name. not (bytes_eq name s.config.name)) s.config.node_list ++ s.learner_list

unfoldable pub get_byzantine_broadcast_threshold : Config → ℕ
get_byzantine_broadcast_threshold config =
    if leb (length config.node_list) config.liveness_u
    then 0
    else length config.node_list - config.liveness_u - 1

unfoldable pub store_and_forward_internally : CachedBlock → AppendEntriesStats → Bool → List Command
store_and_forward_internally block ae_stats this_is_final_block =
    put_block block ∷ to_staging block ae_stats this_is_final_block ∷ []

abbrev pub is_last : List CachedBlock → Bool
is_last [] = true
is_last (_ ∷ _) = false

abbrev pub request_batch : ℕ → Bool → Bool → CachedBlock → Command
request_batch view view_is_stable mine block =
    to_app
      (new_request_batch block.n view view_is_stable mine (length block.tx_list) block.block_hash)

-- The statistics that go with an own block.
abbrev pub my_stats : CachedBlock → Broadcaster → CachedBlock → AppendEntriesStats
my_stats block s b = record {
  view = block.view;
  view_is_stable = b.view_is_stable;
  config_num = block.config_num;
  sender = s.config.name;
  ci = s.ci;
}

-- All blocks of an own fork.
unfoldable pub forward_fork : (CachedBlock → AppendEntriesStats) → List CachedBlock → List Command
unfolding store_and_forward_internally
forward_fork stats [] = []
forward_fork stats (b ∷ bs) =
    store_and_forward_internally b (stats b) (is_last bs) ++ forward_fork stats bs

unfoldable pub broadcast_ae_fork : CachedBlock → List CachedBlock → Broadcaster → List Command
unfolding get_everyone_except_me get_byzantine_broadcast_threshold
broadcast_ae_fork block ae_fork s =
    broadcast (get_everyone_except_me s)
      (record {
        fork = some (map half_serialized ae_fork);
        commit_index = s.ci;
        view = block.view;
        view_is_stable = block.view_is_stable;
        config_num = block.config_num;
        is_backfill_response = false;
      })
      (get_byzantine_broadcast_threshold s.config)
    ∷ []

-- The blocks that a new view starts from go first, and only once.
unfoldable pub process_my_block : CachedBlock → Broadcaster → Broadcaster
unfolding forward_fork broadcast_ae_fork
process_my_block block s =
    let ae_fork = s.fork_prefix_buffer ++ block ∷ [] in
    record s {
      fork_prefix_buffer = [];
      sent =
          s.sent
          ++ (forward_fork (my_stats block s) ae_fork
              ++ request_batch block.view block.view_is_stable true block
                ∷ broadcast_ae_fork block ae_fork s);
    }

-- The blocks of a part, if all were verified.
abbrev pub all_verified : List (Option CachedBlock) → Option (List CachedBlock)
all_verified [] = some []
all_verified (none ∷ bs) = none
all_verified (some b ∷ bs) = elim (all_verified bs) [ none ↦ none | some rest ↦ some (b ∷ rest) ]

unfoldable pub forward_part : AppendEntriesStats → List CachedBlock → List Command
unfolding store_and_forward_internally
forward_part stats [] = []
forward_part stats (b ∷ bs) =
    store_and_forward_internally b stats (is_last bs)
    ++ request_batch stats.view stats.view_is_stable false b ∷ forward_part stats bs

-- `blocks` is what the verification of the part answers.
unfoldable pub process_other_block :
    List (Option CachedBlock) → ℕ → AppendEntriesStats → Broadcaster → Broadcaster
unfolding forward_part
process_other_block blocks remaining_parts ae_stats s = elim (all_verified blocks) [
  | none ↦ emit (multipart_nack remaining_parts ∷ []) s
  | some bs ↦ emit (forward_part ae_stats bs) s
]

pub data Event : Type 0 where
  my_block : Option CachedBlock → Event
  other_block : List (Option CachedBlock) → ℕ → AppendEntriesStats → Event
  update_ci : ℕ → Event
  next_ae_fork_prefix : List (Option CachedBlock) → Event

-- An own block that could not be prepared is passed over; a prefix with a missing block is a panic.
unfoldable pub worker : Event → Broadcaster → Outcome Broadcaster
unfolding process_my_block process_other_block
worker (my_block none) s = done s
worker (my_block (some block)) s = done (process_my_block block s)
worker (other_block blocks remaining_parts ae_stats) s =
    done (process_other_block blocks remaining_parts ae_stats s)
worker (update_ci ci) s = done (record s { ci = ci })
worker (next_ae_fork_prefix blocks) s = elim (all_verified blocks) [
  | none ↦ panicked
  | some bs ↦ done (record s { fork_prefix_buffer = s.fork_prefix_buffer ++ bs })
]
