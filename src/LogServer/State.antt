-- ===== src/LogServer/State.antt =====
-- The state of `LogServer` in src/consensus/logserver.rs, and the operations that change its log.
pub mod Invariant
pub mod Rollback
use powder_raft.Common.{
  ℕ, ◌+◌, Bool, false, ◌&&◌, not, List, [], ◌∷◌, ◌++◌, ltb, leb, ◌==◌, if◌then◌else◌, bytes_eq,
  back, map_or,
}
use powder_raft.Types.{CachedBlock}
use powder_raft.Chain.{up_to, above}
use powder_raft.LogServer.ReadCache.{ReadCache, retain_up_to}

pub record LogServer : Type 0 where
  pub bci : ℕ
  pub log : List CachedBlock
  pub read_cache : ReadCache

-- `self.log.back().map_or(0, |block| block.block.n)`.
abbrev pub last_number : List CachedBlock → ℕ
last_number log = map_or 0 (λ b. b.n) (back log)

-- Whether the parent check of `handle_new_block` stops the block.
abbrev pub parent_mismatch : List CachedBlock → CachedBlock → Bool
parent_mismatch log block =
    ltb 0 (last_number log)
    && map_or false (λ b. not (bytes_eq block.parent b.block_hash)) (back log)

unfoldable pub handle_new_block : CachedBlock → LogServer → LogServer
handle_new_block block s =
    if not (block.n == last_number s.log + 1)
    then s
    else if parent_mismatch s.log block
    then s
    else record s { log = s.log ++ block ∷ [] }

-- The number that a rollback keeps.
abbrev pub rollback_target : ℕ → ℕ → ℕ
rollback_target bci n = if leb n bci then bci + 1 else n

unfoldable pub handle_rollback : ℕ → LogServer → LogServer
unfolding retain_up_to
handle_rollback n s =
    let m = rollback_target s.bci n in
    record s { log = up_to m s.log; read_cache = retain_up_to m s.read_cache }

-- The branches of `worker` for `UpdateBCI` and for a garbage collection.
unfoldable pub update_bci : ℕ → LogServer → LogServer
update_bci n s = record s { bci = n }

unfoldable pub collect_garbage : ℕ → LogServer → LogServer
collect_garbage n s = record s { log = above n s.log }
