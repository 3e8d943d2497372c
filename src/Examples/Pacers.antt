-- ===== src/Examples/Pacers.antt =====
-- A run of the pacemaker.
use powder_raft.Common.{ℕ, [], ◌∷◌, none, true, refl, ◌≡◌, lookup, insert, remove, sub64}
use powder_raft.Common.Outcome.{done}
use powder_raft.Types.{ViewChange, auth}
use powder_raft.Config.{pacemaker_view_update_threshold, new_view_bcast_threshold}
use powder_raft.ForkChoice.{SenderType-discrete}
use powder_raft.Pacemaker.{Answers, Event, view_change, Pacemaker, worker, new, Key-discrete}
use powder_raft.Pacemaker.Runs.{IsReached-IsValid, start, turn}
use powder_raft.Pacemaker.Notices.{IsValid, new_views, updates}
use powder_raft.Examples.Fixtures.{node, cluster}

abbrev agreeing : Answers
agreeing = record { check_hash = λ _ _. true; get_hints = λ _. [] }

abbrev change : ViewChange
change = record {
  view = 1;
  config_num = 1;
  fork = none;
  fork_last_qc = none;
  fork_last_n = 0;
  fork_sig = [];
}

abbrev vote_of : ℕ → Event
vote_of k = view_change agreeing change (auth (node k) 0)

-- The state after an event that the pacemaker handles.
abbrev after : Event → Pacemaker → Pacemaker
after event s = elim (worker event s) [ done s' ↦ s' | _ ↦ s ]

abbrev gathered : Pacemaker
gathered = after (vote_of 4) (after (vote_of 3) (after (vote_of 2) (new cluster)))

gathered_run : (updates gathered.sent ≡ 1 ∷ []) × (new_views gathered.sent ≡ 1 ∷ [])
unfolding worker new lookup insert sub64 SenderType-discrete Key-discrete remove
    pacemaker_view_update_threshold new_view_bcast_threshold
gathered_run = (refl, refl)

IsReached-IsValid_example : IsValid gathered
unfolding worker new lookup insert sub64 SenderType-discrete Key-discrete remove
    pacemaker_view_update_threshold new_view_bcast_threshold
IsReached-IsValid_example = IsReached-IsValid cluster gathered (
    turn (vote_of 4) (after (vote_of 3) (after (vote_of 2) (new cluster))) gathered
      (turn (vote_of 3) (after (vote_of 2) (new cluster))
        (after (vote_of 3) (after (vote_of 2) (new cluster)))
        (turn (vote_of 2) (new cluster) (after (vote_of 2) (new cluster)) start refl) refl)
      refl)
