-- ===== src/LogServer/Blocks.antt =====
-- `get_block` and `get_gced_block` of src/consensus/logserver.rs. `storage` stands for the storage
-- service: the block that it holds under a hash, if any.
pub mod Laws
pub mod Ancestors
use powder_raft.Common.{
  ℕ, zero, suc, ◌+◌, ◌≤◌, ◌≡◌, refl, inl, inr, true, false, ◌||◌, List, [], ◌∷◌, Option, none, some,
  arith, ltb, leb, ◌==◌, if◌then◌else◌, Bytes, front, back, Bool-cases, length,
}
use powder_raft.Common.Outcome.{Outcome, done, panicked, out_of_fuel, ◌>>=◌}
use powder_raft.Types.{CachedBlock}
use powder_raft.Chain.{Links}
use powder_raft.LogServer.ReadCache.{ReadCache, hit, miss}
use powder_raft.LogServer.ReadCache
use powder_raft.LogServer.State.{LogServer}

-- `log.binary_search_by(|e| e.block.n.cmp(&n))` on a log whose numbers rise.
unfoldable pub find : ℕ → List CachedBlock → Option CachedBlock
find n [] = none
find n (b ∷ r) = if b.n == n then some b else find n r

abbrev pub Storage : Type 0
Storage = Bytes → Option CachedBlock

-- Where the search for a collected block begins.
abbrev pub start_from : CachedBlock → Option CachedBlock → CachedBlock
start_from first none = first
start_from first (some b) = b

module _ (storage : Storage) where
  -- The loop `while ret.block.n > n` of `get_gced_block`.
  unfoldable pub walk_back : ℕ → ℕ → CachedBlock → ReadCache → Outcome (CachedBlock × ReadCache)
  walk_back zero n ret c = out_of_fuel
  walk_back (suc fuel) n ret c = elim (ltb n ret.n) [
    | false ↦ done (ret, c)
    | true ↦ elim (storage ret.parent) [
      | none ↦ panicked
      | some block ↦ walk_back fuel n block (ReadCache.put c block)
    ]
  ]

  -- The numbers fall along the loop, so the first number bounds its rounds.
  unfoldable pub fetch : ℕ → CachedBlock → LogServer → Outcome (Option CachedBlock × LogServer)
  unfolding walk_back
  fetch n start s = do
    (b, c) ← walk_back (suc start.n) n start s.read_cache
    done (some b, record s { read_cache = c })

  unfoldable pub get_gced_block : ℕ → LogServer → Outcome (Option CachedBlock × LogServer)
  get_gced_block n s = elim (front s.log) [
    | none ↦ done (none, s)
    | some first ↦ if leb first.n n then done (none, s) else (elim (ReadCache.get s.read_cache n) [
      | hit b ↦ done (some b, s)
      | miss o ↦ fetch n (start_from first o) s
    ])
  ]

  unfoldable pub get_block : ℕ → LogServer → Outcome (Option CachedBlock × LogServer)
  get_block n s = elim (back s.log) [
    | none ↦ done (none, s)
    | some last ↦ if n == 0 || ltb last.n n then done (none, s) else (elim (front s.log) [
      | none ↦ done (none, s)
      | some first ↦ if ltb n first.n then get_gced_block n s else done (find n s.log, s)
    ])
  ]

-- Every number of a chain is found.
pub find-Links :
    (n : ℕ) (b : CachedBlock) (r : List CachedBlock)
    → Links b r
    → b.n ≤ n
    → n ≤ b.n + length r
    → (c : CachedBlock) × (find n (b ∷ r) ≡ some c) × (c.n ≡ n)
unfolding find
find-Links n b [] h lo hi = (b, ground arith, ground arith)
find-Links n b (c ∷ r) h lo hi = elim (Bool-cases (b.n == n)) [
  | inl e ↦ (b, rw e refl, ground arith)
  | inr e ↦
      let (d, found, number) =
        find-Links n c r h.1 (ground (arith, h.0.number)) (ground (arith, h.0.number)) in
      (d, rw e found, number)
]
