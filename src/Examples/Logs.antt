-- ===== src/Examples/Logs.antt =====
-- A log server that holds blocks 2 to 4 after a garbage collection, with block 1 in storage.
use powder_raft.Common.{List, [], ◌∷◌, some, refl, arith, length, ◌≡◌, ◌≤◌, ◌+◌, ℕ, map, All, ◌⊎◌}
use powder_raft.Common.Outcome.{done}
use powder_raft.Types.{CachedBlock, BlockHint, half_serialized}
use powder_raft.Chain.{Links}
use powder_raft.LogServer.ReadCache
use powder_raft.LogServer.ReadCache.{ReadCache, get, put, put-IsValid}
use powder_raft.LogServer.State.{LogServer, last_number, handle_rollback, handle_new_block}
use powder_raft.LogServer.State.Invariant.{IsValid, step, rollback, step-IsValid}
use powder_raft.LogServer.State.Rollback.{handle_rollback-keeps_stale}
use powder_raft.LogServer.Blocks.{get_block, get_gced_block}
use powder_raft.LogServer.Blocks.Laws.{Fits, get_block-number, get_gced_block-Fetched}
use powder_raft.LogServer.Blocks.Ancestors.{genesis, later, Fetched}
use powder_raft.LogServer.Backfill.{fill_fork}
use powder_raft.LogServer.Backfill.Laws.{
  Counts, fill_fork-Counts, IsMissing, last_hint, IsBehindHint,
}
use powder_raft.LogServer.Queries.{hint_of}
use powder_raft.Examples.Fixtures.{block, stored}

abbrev empty_cache : ReadCache
empty_cache = record { cache = []; working_set_size = 2 }

abbrev server : LogServer
server = record { bci = 2; log = block 2 ∷ block 3 ∷ block 4 ∷ []; read_cache = empty_cache }

server-Links : Links (block 2) (block 3 ∷ block 4 ∷ [])
server-Links =
    (record { number = refl; parent = refl }, (record { number = refl; parent = refl }, tt))

empty_cache-IsValid : ReadCache.IsValid empty_cache
empty_cache-IsValid = record { sorted = tt; bounded = omega arith; nonempty = omega arith }

server-IsValid : IsValid server
server-IsValid = record {
  chain = server-Links;
  cache = empty_cache-IsValid;
  positive = (omega arith, (omega arith, (omega arith, tt)));
}

server-Fits : Fits stored server (block 2) (block 3 ∷ block 4 ∷ [])
server-Fits = record {
  shape = refl;
  links = server-Links;
  backed = later refl refl (genesis refl);
  cache = record { valid = empty_cache-IsValid; coherent = tt };
}

step-IsValid_example : IsValid (step (rollback 3) server)
step-IsValid_example = step-IsValid (rollback 3) server server-IsValid

get_gced_block-Fetched_example :
    (b : CachedBlock) × (c : ReadCache) × (get_gced_block stored 1 server
      ≡ done (some b, record server { read_cache = c }))
    × Fetched stored (block 2) 1 b c
get_gced_block-Fetched_example =
    get_gced_block-Fetched stored (block 2) 1 server refl (omega arith) (omega arith)
      server-Fits.backed server-Fits.cache

get_block-number_example :
    (b : CachedBlock) × (c : ReadCache) × (get_block stored 1 server
      ≡ done (some b, record server { read_cache = c }))
    × (b.n ≡ 1)
    × Fits stored (record server { read_cache = c }) (block 2) (block 3 ∷ block 4 ∷ [])
get_block-number_example =
    get_block-number stored server (block 2) (block 3 ∷ block 4 ∷ []) server-Fits 1 (omega arith)
      (omega arith)

-- The other node has block 2.
abbrev seen : List BlockHint
seen = hint_of (block 2) ∷ []

fill_fork-Counts_example :
    (lo : ℕ) × (q : List CachedBlock) × (s' : LogServer) × (fill_fork stored 1 4 seen server
      ≡ done (map half_serialized q, s'))
    × Counts lo q
    × (lo + length q ≡ 4 + 1)
    × (1 ≤ lo)
    × All (IsMissing stored (block 2) (block 3 ∷ block 4 ∷ []) (λ n. last_hint n seen)) q
    × ((lo ≡ 1)
        ⊎ (((◌≡◌ {A = ℕ} 1 0) × (lo ≡ 1))
            ⊎ IsBehindHint stored (block 2) (block 3 ∷ block 4 ∷ []) (λ n. last_hint n seen) lo))
fill_fork-Counts_example =
    fill_fork-Counts stored (block 2) (block 3 ∷ block 4 ∷ []) seen server 1 4 server-Fits
      (omega arith) (omega arith)

handle_rollback-keeps_stale_example :
    (last_number (handle_rollback 2 server).log ≡ 3)
    × (handle_new_block (block 3) (handle_rollback 2 server) ≡ handle_rollback 2 server)
handle_rollback-keeps_stale_example =
    handle_rollback-keeps_stale server (block 2) (block 3 ∷ block 4 ∷ []) 2 (block 3) (omega arith)
      (record { shape = refl; links = server-Links; lower = omega arith; upper = omega arith }) refl

put-IsValid_example : ReadCache.IsValid (put empty_cache (block 1))
put-IsValid_example = put-IsValid empty_cache (block 1) empty_cache-IsValid
