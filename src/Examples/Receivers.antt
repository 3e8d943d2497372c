-- ===== src/Examples/Receivers.antt =====
-- A fork that arrives at node 1, which is in view 1.
use powder_raft.Common.{ℕ, Bytes, true, some, false, replicate, refl, ◌∷◌, []}
use powder_raft.ForkReceiver.Blocked.{worker-IsValid, IsValid}
use powder_raft.Types.{AppendEntries, auth, HalfSerializedBlock}
use powder_raft.ForkReceiver.Commands.{fork_arrives, worker}
use powder_raft.Common.Outcome.{IfDone}
use powder_raft.Examples.Fixtures.{node, cluster}
use powder_raft.ForkReceiver.{ForkReceiver, Answers, new}
use powder_raft.Examples.Blocks.{crypto}

abbrev body : Bytes
body = replicate 200 1

abbrev part_of : ℕ → HalfSerializedBlock
part_of k = record {
  n = k;
  view = 1;
  view_is_stable = true;
  config_num = 1;
  serialized_body = body;
}

abbrev message : AppendEntries
message = record {
  fork = some (part_of 1 ∷ part_of 2 ∷ []);
  commit_index = 0;
  view = 1;
  view_is_stable = true;
  config_num = 1;
  is_backfill_response = false;
}

abbrev receiver : ForkReceiver
receiver = record (new cluster) { view = 1; config_num = 1 }

abbrev knowing : Answers
knowing = record { check_hash = λ _ _. true; get_hints = λ _. [] }

worker-IsValid_example :
    IfDone IsValid (worker crypto knowing (fork_arrives message (auth (node 1) 0)) receiver)
unfolding new
worker-IsValid_example =
    worker-IsValid crypto knowing (fork_arrives message (auth (node 1) 0)) receiver refl
