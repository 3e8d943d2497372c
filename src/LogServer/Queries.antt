-- ===== src/LogServer/Queries.antt =====
-- `handle_query` of src/consensus/logserver.rs: the two queries of the fork receiver and the
-- pacemaker.
pub mod Laws
use powder_raft.Common.{
  ℕ, zero, suc, ◌+◌, ◌*◌, ◌≡◌, refl, Bool, true, false, List, [], ◌∷◌, ◌++◌, Option, none, some,
  ltb, leb, ◌==◌, if◌then◌else◌, Bytes, bytes_eq,
}
use powder_raft.Common.Outcome.{Outcome, done, panicked, out_of_fuel, ◌>>=◌}
use powder_raft.Types.{CachedBlock, BlockHint}
use powder_raft.LogServer.State.{LogServer, last_number}
use powder_raft.LogServer.Blocks.{Storage, get_block}

abbrev pub jump_start : ℕ
jump_start = 1000

abbrev pub jump_multiplier : ℕ
jump_multiplier = 10

abbrev pub hint_of : CachedBlock → BlockHint
hint_of b = record { block_n = b.n; digest = b.block_hash }

-- The next jump, and how often it has been used.
abbrev pub next_jump : ℕ → ℕ → ℕ
next_jump jump used = if leb jump_multiplier (used + 1) then jump * jump_multiplier else jump

abbrev pub next_used : ℕ → ℕ
next_used used = if leb jump_multiplier (used + 1) then 0 else used + 1

module _ (storage : Storage) where
  -- `LogServerQuery::CheckHash`: the answer sent.
  unfoldable pub check_hash : ℕ → Bytes → LogServer → Outcome (Bool × LogServer)
  check_hash n hsh s = if n == 0 then done (true, s) else (do
    (found, s') ← get_block storage n s
    elim found [ none ↦ done (false, s') | some block ↦ done (bytes_eq block.block_hash hsh, s') ])

  -- The loop `while curr_n < last_n` of `LogServerQuery::GetHints`, with fuel.
  unfoldable pub hints_loop :
      ℕ → ℕ → ℕ → ℕ → ℕ → LogServer → List BlockHint → Outcome (List BlockHint × LogServer)
  hints_loop zero last_n curr_n jump used s hints = out_of_fuel
  hints_loop (suc fuel) last_n curr_n jump used s hints = elim (ltb curr_n last_n) [
    | false ↦ done (hints, s)
    | true ↦ do
      (found, s') ← get_block storage curr_n s
      elim found [
        | none ↦ done (hints, s')
        | some block ↦
            hints_loop fuel last_n (curr_n + jump) (next_jump jump used) (next_used used) s'
              (hints ++ hint_of block ∷ [])
      ]
  ]

  -- The block with the last number is added at the end; the code panics if there is none.
  unfoldable pub add_last : ℕ → List BlockHint × LogServer → Outcome (List BlockHint × LogServer)
  add_last last_n (hints, s) =
      if ltb 0 last_n
      then (do
        (found, s') ← get_block storage last_n s
        elim found [ none ↦ panicked | some block ↦ done (hints ++ hint_of block ∷ [], s') ])
      else done (hints, s)

  -- `LogServerQuery::GetHints`. Each round moves on by 1000 at least, so `last_n` rounds are enough.
  unfoldable pub get_hints : ℕ → LogServer → Outcome (List BlockHint × LogServer)
  unfolding hints_loop add_last
  get_hints last_needed_n s = do
    r ←
        hints_loop (suc (last_number s.log)) (last_number s.log)
          (if last_needed_n == 0 then 1 else last_needed_n) jump_start 0 s []
    add_last (last_number s.log) r
