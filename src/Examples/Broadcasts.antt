-- ===== src/Examples/Broadcasts.antt =====
-- The leader of a view broadcasts a block, after one that was left in its buffer.
use powder_raft.Common.{[], ◌∷◌, some}
use powder_raft.Common.Outcome.{IfDone}
use powder_raft.Broadcaster.{Broadcaster, worker, my_block}
use powder_raft.Broadcaster.Stored.{StoredFirst, worker-StoredFirst}
use powder_raft.Examples.Fixtures.{cluster, block}

abbrev broadcaster : Broadcaster
broadcaster = record {
  config = cluster;
  learner_list = [];
  ci = 0;
  fork_prefix_buffer = block 1 ∷ [];
  sent = [];
}

worker-StoredFirst_example :
    IfDone (λ s'. StoredFirst [] s'.sent) (worker (my_block (some (block 2))) broadcaster)
worker-StoredFirst_example = worker-StoredFirst (my_block (some (block 2))) broadcaster tt
