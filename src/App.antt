-- ===== src/App.antt =====
-- `Application` of src/consensus/app.rs: it passes commits to an engine, answers clients and keeps
-- statistics. The engine is an interface, which the key-value store fills.
pub mod Stores
pub mod Acks
use powder_raft.Common.{
  ℕ, Bool, false, leb, List, Bytes, length, ltb, ◌+◌, ◌-◌, ◌++◌, ◌∷◌, ◌==◌, [], if◌then◌else◌,
}
use powder_raft.Types.{OpResult, Transaction, CachedBlock, QuorumCertificate}
use powder_raft.Common.Outcome.{panicked, Outcome, done, ◌>>=◌}
use powder_raft.Crypto.{default_hash}
use powder_raft.Kvs.Blocks.{ByzResponse}

-- `AppEngine`
pub record Engine (S : Type 0) : Type 0 where
  pub start : S
  pub crash_commit : List CachedBlock → S → Outcome (List (List (List OpResult)) × S)
  pub byz_commit : List CachedBlock → S → List (List ByzResponse) × S
  pub rollback : ℕ → S → S
  pub unlogged_request : Transaction → S → Outcome (List OpResult)

pub record LogStats : Type 0 where
  pub ci : ℕ
  pub bci : ℕ
  pub view : ℕ
  pub i_am_leader : Bool
  pub view_is_stable : Bool
  pub last_n : ℕ
  pub last_qc : ℕ
  pub last_hash : Bytes
  pub total_requests : ℕ
  pub total_crash_committed_txs : ℕ
  pub total_byz_committed_txs : ℕ
  pub total_unlogged_txs : ℕ

abbrev pub no_stats : LogStats
no_stats = record {
  ci = 0;
  bci = 0;
  view = 0;
  i_am_leader = false;
  view_is_stable = false;
  last_n = 0;
  last_qc = 0;
  last_hash = default_hash;
  total_requests = 0;
  total_crash_committed_txs = 0;
  total_byz_committed_txs = 0;
  total_unlogged_txs = 0;
}

-- `AppCommand`
pub data AppCommand : Type 0 where
  new_request_batch : ℕ → ℕ → Bool → Bool → ℕ → Bytes → AppCommand
  crash_commit : List CachedBlock → AppCommand
  byz_commit : List CachedBlock → AppCommand
  rollback : ℕ → AppCommand

-- Answers for a block by its hash, with its number.
abbrev pub Answer : Type 0 → Type 0
Answer R = Bytes × (ℕ × R)

pub data Reply : Type 0 where
  crash_commit_ack : List (Answer (List (List OpResult))) → Reply
  byz_commit_ack : List (Answer (List ByzResponse)) → Reply
  unlogged_reply : List OpResult → Reply
  collect_garbage : ℕ → Reply

pub record Application (S : Type 0) : Type 0 where
  pub engine : S
  pub stats : LogStats
  pub sent : List Reply

abbrev pub higher : ℕ → ℕ → ℕ
higher a b = if ltb a b then b else a

abbrev pub highest_n : ℕ → List CachedBlock → ℕ
highest_n n [] = n
highest_n n (b ∷ bs) = highest_n (higher n b.n) bs

abbrev pub highest_qc : ℕ → List QuorumCertificate → ℕ
highest_qc n [] = n
highest_qc n (qc ∷ qcs) = highest_qc (higher n qc.n) qcs

abbrev pub highest_block_qc : ℕ → List CachedBlock → ℕ
highest_block_qc n [] = n
highest_block_qc n (b ∷ bs) = highest_block_qc (highest_qc n b.qc) bs

abbrev pub count : {R : Type 0} → List (List R) → ℕ
count [] = 0
count (rs ∷ rss) = length rs + count rss

abbrev pub answers : {R : Type 0} → List CachedBlock → List R → List (Answer R)
answers (b ∷ bs) (r ∷ rs) = (b.block_hash, (b.n, r)) ∷ answers bs rs
answers _ _ = []

module _ {S : Type 0} (e : Engine S) where
  unfoldable pub new : Application S
  new = record { engine = e.start; stats = no_stats; sent = [] }

  unfoldable pub handle_crash_commit : List CachedBlock → Application S → Outcome (Application S)
  handle_crash_commit blocks s = do
    (results, engine) ← e.crash_commit blocks s.engine
    let s' = record s {
      engine = engine;
      stats = record s.stats {
        total_crash_committed_txs = s.stats.total_crash_committed_txs + count results;
        ci = highest_n s.stats.ci blocks;
        last_qc = highest_block_qc s.stats.last_qc blocks;
      };
      sent = s.sent ++ crash_commit_ack (answers blocks results) ∷ [];
    }
    if length blocks == length results then done s' else panicked

  unfoldable pub handle_byz_commit : List CachedBlock → Application S → Outcome (Application S)
  handle_byz_commit blocks s =
      let (results, engine) = e.byz_commit blocks s.engine in
      let s' = record s {
        engine = engine;
        stats = record s.stats {
          total_byz_committed_txs = s.stats.total_byz_committed_txs + count results;
          bci = highest_n s.stats.bci blocks;
        };
        sent = s.sent ++ byz_commit_ack (answers blocks results) ∷ [];
      } in
      if length blocks == length results then done s' else panicked

  -- A target that is committed for good is raised above that commit.
  unfoldable pub handle_rollback : ℕ → Application S → Application S
  handle_rollback target s =
      let new_last_block = if leb target s.stats.bci then s.stats.bci + 1 else target in
      record s {
        stats = record s.stats {
          ci = if ltb new_last_block s.stats.ci then new_last_block else s.stats.ci;
          last_n = new_last_block;
        };
        engine = e.rollback new_last_block s.engine;
      }

  unfoldable pub handle_staging_command : AppCommand → Application S → Outcome (Application S)
  unfolding handle_crash_commit handle_byz_commit handle_rollback
  handle_staging_command (new_request_batch n view view_is_stable i_am_leader len last_hash) s =
      done (record s {
        stats = record s.stats {
          last_n = n;
          view = view;
          view_is_stable = view_is_stable;
          i_am_leader = i_am_leader;
          last_hash = last_hash;
          total_requests = s.stats.total_requests + len;
        };
      })
  handle_staging_command (crash_commit blocks) s = handle_crash_commit blocks s
  handle_staging_command (byz_commit blocks) s = handle_byz_commit blocks s
  handle_staging_command (rollback target) s = done (handle_rollback target s)

  unfoldable pub handle_unlogged_request : Transaction → Application S → Outcome (Application S)
  handle_unlogged_request request s = do
    result ← e.unlogged_request request s.engine
    done (record s {
      stats = record s.stats {
        total_requests = s.stats.total_requests + 1;
        total_unlogged_txs = s.stats.total_unlogged_txs + 1;
      };
      sent = s.sent ++ unlogged_reply result ∷ [];
    })

  -- Blocks below the last one that is committed for good may go.
  unfoldable pub checkpoint : Application S → Application S
  checkpoint s =
      if ltb 1 s.stats.bci
      then record s { sent = s.sent ++ collect_garbage (s.stats.bci - 1) ∷ [] }
      else s
