-- ===== src/Examples/Forks.antt =====
-- Fork choice between two nodes' forks.
use powder_raft.Common.{[], ◌∷◌, some, refl, arith, length, ◌≡◌, ◌<◌, map, All, In}
use powder_raft.Common.Outcome.{done}
use powder_raft.Types.{auth}
use powder_raft.ForkChoice.{ForkStat, Stats, fork_choice_filter, filter_highest_qc_view, max_by}
use powder_raft.ForkChoice.Rules.{fork_choice_filter-Beats, Beats}
use powder_raft.ForkChoice.SingleBlock.{fork_choice_filter-drops_forks}
use powder_raft.Examples.Fixtures.{node, qc_for}

-- A fork of one block, number 2, with a certificate for block 1.
abbrev one_block : ForkStat
one_block = record {
  block_hashes = (2 ∷ []) ∷ [];
  fork_last_n = 2;
  first_n = 2;
  first_parent = 1 ∷ [];
  last_qc = some (qc_for 1);
  last_view = 1;
  last_config_num = 1;
}

-- A longer fork with a certificate for block 2.
abbrev longer : ForkStat
longer = record one_block {
  block_hashes = (2 ∷ []) ∷ (3 ∷ []) ∷ [];
  fork_last_n = 3;
  last_qc = some (qc_for 2);
}

abbrev others : Stats
others = (auth (node 2) 0, one_block) ∷ (auth (node 3) 0, one_block) ∷ []

fork_choice_filter-Beats_example :
    (chosen : Stats) × (fork_choice_filter 2 ((auth (node 1) 0, longer) ∷ others)
      ≡ done (map (λ c. c.0) chosen))
    × (0 < length chosen)
    × All
        (λ c.
          In c ((auth (node 1) 0, longer) ∷ others)
          × All (λ o. Beats c.1 o.1) ((auth (node 1) 0, longer) ∷ others))
        chosen
unfolding filter_highest_qc_view max_by
fork_choice_filter-Beats_example =
    fork_choice_filter-Beats 2 (auth (node 1) 0, longer) others (ground arith)

fork_choice_filter-drops_forks_example : fork_choice_filter 2 others ≡ done []
unfolding filter_highest_qc_view max_by
fork_choice_filter-drops_forks_example =
    fork_choice_filter-drops_forks 2 2 others (omega arith) (ground arith)
      ((refl, refl), ((refl, refl), tt))
