-- ===== src/ForkReceiver/Commands.antt =====
-- The handlers of the fork receiver.
use powder_raft.Common.{
  ℕ, false, none, drop, true, bytes_eq, List, length, some, map_or, Bool, ltb, ◌∷◌, ◌||◌, ◌==◌, [],
  if◌then◌else◌,
}
use powder_raft.Types.{HalfSerializedBlock, AppendEntries, auth, SenderType, Name, anon}
use powder_raft.Common.Outcome.{Outcome, done, panicked, ◌>>=◌, ◌>>=◌}
use powder_raft.ForkReceiver.{
  forward_parts, forward_part, Answers, check_views, no_hash, ForkReceiver, split_parts, send_nack,
  ensure_common_prefix,
}
use powder_raft.Staging.NewView.{name_of}
use powder_raft.Crypto.{Crypto}
use powder_raft.Config.{Config, get_leader_for_view}
use powder_raft.Staging.State.{AppendEntriesStats}

-- The leader of a view; a configuration without nodes is a panic.
abbrev pub leader_of : Config → ℕ → Outcome Name
leader_of config view = map_or panicked done (get_leader_for_view config view)

-- Whether the sender may send this: in the own configuration only the leader of the view may.
unfoldable pub is_sender_legit : AppendEntries → Name → ForkReceiver → Outcome Bool
unfolding get_leader_for_view
is_sender_legit ae sender s =
    if ae.config_num == s.config_num
    then (leader_of s.config ae.view >>= λ leader. done (bytes_eq leader sender))
    else done true

-- The views must rise with unstable blocks up to the message's view, else the fork is refused.
unfoldable pub accept_fork :
    Answers → AppendEntries → Name → List HalfSerializedBlock → ForkReceiver → Outcome ForkReceiver
unfolding check_views send_nack split_parts forward_parts
accept_fork answers ae sender blocks s = elim (check_views s.view blocks) [
  | none ↦ send_nack answers sender ae s
  | some test_view ↦ elim (ltb test_view ae.view) [
    | true ↦ send_nack answers sender ae s
    | false ↦ elim (split_parts s.config_num [] blocks) [
      | none ↦ done (record s { waiting_on_nack_reply = false })
      | some parts ↦ forward_parts ae sender parts (record s { waiting_on_nack_reply = false })
    ]
  ]
]

-- A fork that meets no known block is refused.
unfoldable pub follow_prefix :
    Answers → AppendEntries → Name → Bool × ForkReceiver → Outcome ForkReceiver
unfolding send_nack accept_fork
follow_prefix answers ae sender (false, s) = send_nack answers sender ae s
follow_prefix answers ae sender (true, s) = elim ae.fork [
  | none ↦ done s
  | some blocks ↦ accept_fork answers ae sender blocks s
]

unfoldable pub process_legit :
    Crypto → Answers → AppendEntries → Name → Bool → ForkReceiver → Outcome ForkReceiver
unfolding ensure_common_prefix follow_prefix
process_legit crypto answers ae sender false s = done s
process_legit crypto answers ae sender true s =
    ensure_common_prefix crypto answers ae s >>= follow_prefix answers ae sender

unfoldable pub process_fork :
    Crypto → Answers → AppendEntries → Name → ForkReceiver → Outcome ForkReceiver
unfolding is_sender_legit process_legit
process_fork crypto answers ae sender s =
    elim (ltb ae.view s.view || ltb ae.config_num s.config_num) [
      | true ↦ done s
      | false ↦
          is_sender_legit ae sender s >>= λ legit. process_legit crypto answers ae sender legit s
    ]

abbrev pub unblock : ForkReceiver → ForkReceiver
unblock s = record s {
  blocked_on_multipart = if length s.multipart_buffer == 0 then false else s.blocked_on_multipart;
}

-- The last part of a fork must come from the leader of the view.
unfoldable pub maybe_legit : ℕ → AppendEntriesStats → ForkReceiver → Outcome Bool
unfolding get_leader_for_view
maybe_legit waiting ae_stats s =
    if waiting == 0
    then (leader_of s.config s.view >>= λ leader. done (bytes_eq leader ae_stats.sender))
    else done true

-- The next part goes on once its configuration is there.
unfoldable pub forward_next : ForkReceiver → Outcome ForkReceiver
unfolding forward_part maybe_legit
forward_next s = elim s.multipart_buffer [
  | [] ↦ done s
  | (part, ae_stats) ∷ rest ↦ do
    legit ← maybe_legit (length rest) ae_stats s
    elim legit [
      | true ↦ forward_part part (length rest) ae_stats (record s { multipart_buffer = rest })
      | false ↦ done (record s { multipart_buffer = rest })
    ]
]

unfoldable pub update_view : ℕ → ℕ → ForkReceiver → Outcome ForkReceiver
unfolding forward_next
update_view view config_num s = do
  let s' = record s {
    last_ae_view = if s.view == view then s.last_ae_view else view;
    last_ae_block_hash = if s.view == view then s.last_ae_block_hash else no_hash;
    view = view;
    config_num = config_num;
  }
  s'' ← if ltb s.config_num config_num then forward_next s' else done s'
  done (unblock s'')

-- The number of refused parts must be that of the waiting ones.
unfoldable pub multipart_nack : ℕ → ForkReceiver → Outcome ForkReceiver
multipart_nack n s =
    if n == length s.multipart_buffer
    then done (unblock (record s { multipart_buffer = drop n s.multipart_buffer }))
    else panicked

pub data ReceiverCommand : Type 0 where
  move_to_view : ℕ → ℕ → ReceiverCommand
  refuse_parts : ℕ → ReceiverCommand
  use_backfill_response : AppendEntries → SenderType → ReceiverCommand

unfoldable pub handle_command :
    Crypto → Answers → ReceiverCommand → ForkReceiver → Outcome ForkReceiver
unfolding update_view multipart_nack process_fork
handle_command crypto answers (move_to_view view config_num) s = update_view view config_num s
handle_command crypto answers (refuse_parts n) s = multipart_nack n s
handle_command crypto answers (use_backfill_response ae sender) s =
    process_fork crypto answers ae (name_of sender) s

pub data Event : Type 0 where
  fork_arrives : AppendEntries → SenderType → Event
  command_arrives : ReceiverCommand → Event

-- While parts wait, or the answer to a nack, new forks stay in their channel.
unfoldable pub worker : Crypto → Answers → Event → ForkReceiver → Outcome ForkReceiver
unfolding process_fork handle_command
worker crypto answers (command_arrives cmd) s = handle_command crypto answers cmd s
worker crypto answers (fork_arrives ae anon) s = done s
worker crypto answers (fork_arrives ae (auth sender _)) s =
    if s.blocked_on_multipart || s.waiting_on_nack_reply
    then done s
    else process_fork crypto answers ae sender s
