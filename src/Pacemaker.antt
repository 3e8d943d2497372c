-- ===== src/Pacemaker.antt =====
-- `Pacemaker` of src/consensus/pacemaker.rs: it gathers view change messages and tells staging when
-- there are enough to follow a view, or to lead it.
pub mod Buffer
pub mod Notices
pub mod Runs
use powder_raft.Common.{
  ℕ, Bytes, some, ltb, sub64, lookup, none, ℕ_discrete, leb, length, map_or, Bool, retain, insert,
  remove, List, ◌++◌, ◌∷◌, ◌&&◌, ◌||◌, [], if◌then◌else◌,
}
use powder_raft.Common.Outcome.{done, Outcome, panicked, ◌>>=◌}
use powder_raft.Types.{Name, SenderType, ViewChange, auth, BlockHint}
use powder_raft.Staging.NewView.{name_of}
use powder_raft.ForkChoice.{SenderType-discrete}
use powder_raft.Config.{Config, pacemaker_view_update_threshold, new_view_bcast_threshold}
use powder_raft.Crypto.{get_parent_hash_in_proto_block_ser}

-- The view change messages of one view and configuration.
abbrev pub Forks : Type 0
Forks = List (SenderType × ViewChange)

abbrev pub Key : Type 0
Key = ℕ × ℕ

unfoldable pub Key-discrete : Discrete Key
unfolding ℕ_discrete
Key-discrete = hlevel ℕ_discrete

-- To staging, or to the network for a nack.
pub data Command : Type 0 where
  update_view : ℕ → ℕ → Command
  new_view_forks : ℕ → ℕ → Forks → Command
  backfill_nack : Name → ViewChange → List BlockHint → ℕ → Command
  answer : Bool → Command

pub record Pacemaker : Type 0 where
  pub config : Config
  pub view_num : ℕ
  pub config_num : ℕ
  pub last_view_notified : ℕ
  pub last_new_viewed_view : ℕ
  pub bci : ℕ
  pub vc_buffer : List (Key × Forks)
  pub sent : List Command

unfoldable pub new : Config → Pacemaker
new config = record {
  config = config;
  view_num = 0;
  config_num = 0;
  last_view_notified = 0;
  last_new_viewed_view = 0;
  bci = 0;
  vc_buffer = [];
  sent = [];
}

-- What the log server answers to `CheckHash` and `GetHints`.
pub record Answers : Type 0 where
  pub check_hash : ℕ → Bytes → Bool
  pub get_hints : ℕ → List BlockHint

-- The number (which wraps) and the hash of the block that a fork builds on.
unfoldable pub fork_parent : ViewChange → Outcome (ℕ × Bytes)
unfolding get_parent_hash_in_proto_block_ser
fork_parent vc = elim vc.fork [
  | none ↦ done (0, [])
  | some fork ↦ elim fork [
    | [] ↦ done (0, [])
    | first_block ∷ _ ↦
        map_or panicked (λ parent_hash. done (sub64 first_block.n 1, parent_hash))
          (get_parent_hash_in_proto_block_ser first_block.serialized_body)
  ]
]

unfoldable pub send_nack : SenderType → ViewChange → List BlockHint → Pacemaker → Pacemaker
send_nack sender vc hints s = record s {
  sent = s.sent ++ backfill_nack (name_of sender) vc hints s.bci ∷ [];
}

-- The messages for a view, with a new one, which replaces the sender's last.
unfoldable pub with_message : SenderType → ViewChange → Pacemaker → Forks
with_message sender vc s =
    insert SenderType-discrete sender vc
      (map_or [] (λ forks. forks) (lookup Key-discrete (vc.view, vc.config_num) s.vc_buffer))

unfoldable pub notify_view : ℕ → ℕ → Forks → Pacemaker → Pacemaker
notify_view view config forks s =
    if leb (pacemaker_view_update_threshold s.config) (length forks)
      && ltb s.last_view_notified view
    then record s { sent = s.sent ++ update_view view config ∷ []; last_view_notified = view }
    else s

unfoldable pub notify_new_view : ℕ → ℕ → Forks → Pacemaker → Pacemaker
notify_new_view view config forks s =
    if leb (new_view_bcast_threshold s.config) (length forks) && ltb s.last_new_viewed_view view
    then record s {
      vc_buffer = remove Key-discrete (view, config) s.vc_buffer;
      sent = s.sent ++ new_view_forks view config forks ∷ [];
      last_new_viewed_view = view;
    }
    else s

unfoldable pub buffer_message : SenderType → ViewChange → Pacemaker → Pacemaker
unfolding with_message notify_view notify_new_view
buffer_message sender vc s =
    let forks = with_message sender vc s in
    let s' = record s {
      vc_buffer = insert Key-discrete (vc.view, vc.config_num) forks s.vc_buffer;
    } in
    notify_new_view vc.view vc.config_num forks (notify_view vc.view vc.config_num forks s')

-- A fork that does not meet the log is dropped, or refused with a nack if its parent is not
-- committed for good here.
unfoldable pub handle_view_change :
    Answers → ViewChange → SenderType → Pacemaker → Outcome Pacemaker
unfolding fork_parent send_nack buffer_message
handle_view_change answers vc sender s =
    if ltb vc.view s.view_num
      || ltb vc.config_num s.config_num
      || leb vc.view s.last_new_viewed_view
    then done s
    else fork_parent vc >>= λ (parent : ℕ × Bytes). done (
        if answers.check_hash parent.0 parent.1
        then buffer_message sender vc s
        else if leb parent.0 s.bci
        then s
        else send_nack sender vc (answers.get_hints s.bci) s)

unfoldable pub handle_my_view_jump : Answers → ℕ → ℕ → ViewChange → Pacemaker → Outcome Pacemaker
unfolding handle_view_change
handle_my_view_jump answers view_num config_num vc s =
    handle_view_change answers vc (auth s.config.name 0) (record s {
      vc_buffer = retain (λ e. leb view_num e.0.0 && leb config_num e.0.1) s.vc_buffer;
    })

-- `QueryEnoughVCMsg`
unfoldable pub enough_messages : ℕ → ℕ → Pacemaker → Bool
enough_messages view config s =
    leb view s.last_new_viewed_view
    || leb (new_view_bcast_threshold s.config)
        (map_or 0 length (lookup Key-discrete (view, config) s.vc_buffer))

pub data Event : Type 0 where
  view_change : Answers → ViewChange → SenderType → Event
  my_view_jumped : Answers → ℕ → ℕ → ViewChange → Event
  update_bci : ℕ → Event
  query_enough : ℕ → ℕ → Event
  -- A closed channel, or a command that is not for the pacemaker.
  ignored : Event

unfoldable pub worker : Event → Pacemaker → Outcome Pacemaker
unfolding handle_view_change handle_my_view_jump enough_messages
worker (view_change answers vc sender) s = handle_view_change answers vc sender s
worker (my_view_jumped answers view_num config_num vc) s =
    handle_my_view_jump answers view_num config_num vc s
worker (update_bci bci) s = done (record s { bci = bci })
worker (query_enough view config) s =
    done (record s { sent = s.sent ++ answer (enough_messages view config s) ∷ [] })
worker ignored s = done s
