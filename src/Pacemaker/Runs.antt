-- ===== src/Pacemaker/Runs.antt =====
-- The pacemaker's invariant, along its runs.
use powder_raft.Common.{subst, leb, refl, ltb, if_both, insert-All, retain-All, ◌≡◌, ◌||◌}
use powder_raft.Pacemaker.{
  send_nack, Key-discrete, handle_view_change, Pacemaker, handle_my_view_jump, worker, Forks,
  buffer_message, ignored, Event, fork_parent, Answers, new, query_enough, with_message,
  view_change, update_bci, my_view_jumped,
}
use powder_raft.Pacemaker.Notices.{
  IsValid, notify_new_view-IsValid, quiet-IsValid, notify_view-IsValid,
}
use powder_raft.Types.{SenderType, ViewChange, auth}
use powder_raft.Common.Outcome.{done, IfDone, IfDone-after}
use powder_raft.Pacemaker.Buffer.{IsGathered, with_message-IsGathered}
use powder_raft.Config.{Config}

buffer_message-IsValid :
    (sender : SenderType) (vc : ViewChange) (s : Pacemaker)
    → IsValid s
    → IsValid (buffer_message sender vc s)
unfolding buffer_message
buffer_message-IsValid sender vc s v =
    notify_new_view-IsValid vc.view vc.config_num forks _ gathered (
      notify_view-IsValid vc.view vc.config_num forks _ (record {
        gathered =
            insert-All Key-discrete IsGathered (vc.view, vc.config_num) forks s.vc_buffer gathered
              v.gathered;
        updated = v.updated;
        viewed = v.viewed;
        backed = v.backed;
      }))
  where
    forks : Forks
    forks = with_message sender vc s

    gathered : IsGathered ((vc.view, vc.config_num), forks)
    gathered = with_message-IsGathered sender vc s v.gathered

handle_view_change-IsValid :
    (answers : Answers) (vc : ViewChange) (sender : SenderType) (s : Pacemaker)
    → IsValid s
    → IfDone IsValid (handle_view_change answers vc sender s)
unfolding handle_view_change send_nack
handle_view_change-IsValid answers vc sender s v =
    if_both (IfDone IsValid)
      (ltb vc.view s.view_num
        || ltb vc.config_num s.config_num
        || leb vc.view s.last_new_viewed_view)
      _ _ v
      (IfDone-after IsValid (fork_parent vc) _ λ parent.
        if_both IsValid (answers.check_hash parent.0 parent.1) _ _
          (buffer_message-IsValid sender vc s v)
          (if_both IsValid (leb parent.0 s.bci) _ _ v (quiet-IsValid _ s refl refl tt v)))

worker-IsValid : (event : Event) (s : Pacemaker) → IsValid s → IfDone IsValid (worker event s)
unfolding worker handle_my_view_jump
worker-IsValid (view_change answers vc sender) s v =
    handle_view_change-IsValid answers vc sender s v
worker-IsValid (my_view_jumped answers view_num config_num vc) s v =
    handle_view_change-IsValid answers vc (auth s.config.name 0) _ (record {
      gathered = retain-All IsGathered _ s.vc_buffer v.gathered;
      updated = v.updated;
      viewed = v.viewed;
      backed = v.backed;
    })
worker-IsValid (update_bci bci) s v = record {
  gathered = v.gathered;
  updated = v.updated;
  viewed = v.viewed;
  backed = v.backed;
}
worker-IsValid (query_enough view config) s v = quiet-IsValid _ s refl refl tt v
worker-IsValid ignored s v = v

-- The states that a run reaches.
pub data IsReached (config : Config) : Pacemaker → Type 0 where
  start : IsReached config (new config)
  turn :
      (event : Event) (s s' : Pacemaker)
      → IsReached config s
      → worker event s ≡ done s'
      → IsReached config s'

-- In every run of the pacemaker: the views it announces to staging rise strictly, for updates and
-- for new views, so each is announced once; and a new view comes with view change messages of at
-- least n - u different senders (a name with a sub-id), all for that view and configuration.
pub IsReached-IsValid : (config : Config) (s : Pacemaker) → IsReached config s → IsValid s
unfolding new
IsReached-IsValid config _ start = record { gathered = tt; updated = tt; viewed = tt; backed = tt }
IsReached-IsValid config _ (turn event s s' r e) =
    subst (IfDone IsValid) e (worker-IsValid event s (IsReached-IsValid config s r))
