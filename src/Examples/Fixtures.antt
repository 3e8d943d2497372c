-- ===== src/Examples/Fixtures.antt =====
-- Shared test data: a cluster of four nodes and a chain of four blocks.
use powder_raft.Common.{
  ℕ, ◌-◌, List, [], ◌∷◌, Option, none, some, true, Bytes, if◌then◌else◌, leb, ◌&&◌,
}
use powder_raft.Types.{CachedBlock, QuorumCertificate, Name, NameWithSignature}
use powder_raft.Config.{Config}

abbrev pub node : ℕ → Name
node k = k ∷ []

-- Four nodes of which one may fail; this is node 1.
abbrev pub cluster : Config
cluster = record {
  name = node 1;
  node_list = node 1 ∷ node 2 ∷ node 3 ∷ node 4 ∷ [];
  liveness_u = 1;
  commit_index_gap_soft = 10;
  commit_index_gap_hard = 20;
  signature_max_delay_blocks = 5;
}

-- Block `n`, whose hash is its number, with certificates.
abbrev pub certified_block : ℕ → List QuorumCertificate → CachedBlock
certified_block n qcs = record {
  block = record {
    tx_list = [];
    n = n;
    parent = (n - 1) ∷ [];
    view = 1;
    qc = qcs;
    fork_validation = [];
    view_is_stable = true;
    config_num = 1;
    sig = none;
  };
  block_ser = n ∷ [];
  block_hash = n ∷ [];
}

abbrev pub block : ℕ → CachedBlock
block n = certified_block n []

abbrev pub signed_by : ℕ → NameWithSignature
signed_by k = record { name = node k; sig = k ∷ [] }

-- A certificate of three nodes for block `n` in view 1.
abbrev pub qc_for : ℕ → QuorumCertificate
qc_for n = record {
  digest = n ∷ [];
  n = n;
  sig = signed_by 1 ∷ signed_by 2 ∷ signed_by 3 ∷ [];
  view = 1;
}

-- The storage holds blocks 1 to 4.
abbrev pub stored : Bytes → Option CachedBlock
stored [] = none
stored (k ∷ _) = if leb k 4 && leb 1 k then some (block k) else none
