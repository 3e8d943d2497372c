-- ===== src/LogServer/Backfill.antt =====
-- `respond_backfill` and `fill_fork` of src/consensus/logserver.rs.
pub mod Laws
use powder_raft.Common.{
  ℕ, zero, suc, ◌+◌, ◌-◌, ◌≡◌, refl, Bool, true, false, ◌&&◌, List, [], ◌∷◌, ◌++◌, Option, none,
  some, map, ltb, leb, ◌==◌, if◌then◌else◌, Bytes, bytes_eq, back, map_or, insert, lookup,
  ℕ_discrete,
}
use powder_raft.Common.Outcome.{Outcome, done, panicked, ◌>>=◌}
use powder_raft.Types.{
  CachedBlock, BlockHint, HalfSerializedBlock, half_serialized, AppendEntries, ViewChange, Name,
}
use powder_raft.LogServer.State.{LogServer, last_number}
use powder_raft.LogServer.Blocks.{Storage, get_block}

-- The message that is answered.
pub data Origin : Type 0 where
  ae : AppendEntries → Origin
  vc : ViewChange → Origin

pub record BackfillNack : Type 0 where
  pub hints : List BlockHint
  pub last_index_needed : ℕ
  pub reply_name : Name
  pub origin : Option Origin

-- `hints.drain(..).map(..).collect::<HashMap<_, _>>()`: the last hint for a number counts.
unfoldable pub hint_map : List BlockHint → List (ℕ × Bytes) → List (ℕ × Bytes)
hint_map [] m = m
hint_map (h ∷ hs) m = hint_map hs (insert ℕ_discrete h.block_n h.digest m)

-- Whether a hint says that the other node has the block.
unfoldable pub is_hinted : List (ℕ × Bytes) → ℕ → CachedBlock → Bool
is_hinted hints i b = map_or false (λ h. bytes_eq h b.block_hash) (lookup ℕ_discrete i hints)

module _ (storage : Storage) where
  -- `for i in (first_n..=last_n).rev()`, with the rounds left and the next `i`.
  unfoldable pub fill_loop :
      ℕ
      → ℕ
      → List (ℕ × Bytes)
      → LogServer
      → List CachedBlock
      → Outcome (List CachedBlock × LogServer)
  fill_loop zero i hints s queue = done (queue, s)
  fill_loop (suc k) i hints s queue = do
    (found, s') ← get_block storage i s
    elim found [
      | none ↦ done (queue, s')
      | some b ↦ elim (is_hinted hints i b) [
        | true ↦ done (queue, s')
        | false ↦ fill_loop k (i - 1) hints s' (b ∷ queue)
      ]
    ]

  unfoldable pub fill_fork :
      ℕ → ℕ → List BlockHint → LogServer → Outcome (List HalfSerializedBlock × LogServer)
  unfolding fill_loop hint_map
  fill_fork first_n last_n hints s = if ltb last_n first_n then panicked else (do
    (queue, s') ← fill_loop (last_n - first_n + 1) last_n (hint_map hints []) s []
    done (map half_serialized queue, s'))

  -- The fork in the message, if it is well formed.
  abbrev pub existing_fork : Option Origin → Option (List HalfSerializedBlock)
  existing_fork none = none
  existing_fork (some (ae a)) = a.fork
  existing_fork (some (vc v)) = v.fork

  -- The message that is sent back, with the new fork in it.
  abbrev pub with_fork : List HalfSerializedBlock → Origin → Origin
  with_fork fork (ae a) = ae (record a { fork = some fork; is_backfill_response = true })
  with_fork fork (vc v) = vc (record v { fork = some fork })

  -- The number up to which the fork is filled.
  abbrev pub backfill_to : List HalfSerializedBlock → LogServer → ℕ
  backfill_to fork s = map_or (last_number s.log) (λ b. b.n) (back fork)

  abbrev pub backfill_reply :
      ℕ
      → Name
      → List BlockHint
      → Origin
      → Option (List HalfSerializedBlock)
      → LogServer
      → Outcome (Option (Name × Origin) × LogServer)
  backfill_reply first_n sender hints origin none s = done (none, s)
  backfill_reply first_n sender hints origin (some fork) s = do
    (filled, s') ← fill_fork first_n (backfill_to fork s) hints s
    done (some (sender, with_fork filled origin), s')

  -- The message sent, if any, and to whom.
  unfoldable pub respond_backfill :
      BackfillNack → LogServer → Outcome (Option (Name × Origin) × LogServer)
  respond_backfill req s = elim req.origin [
    | none ↦ done (none, s)
    | some origin ↦
        backfill_reply req.last_index_needed req.reply_name req.hints origin
          (existing_fork (some origin)) s
  ]
