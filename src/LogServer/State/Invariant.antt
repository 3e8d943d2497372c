-- ===== src/LogServer/State/Invariant.antt =====
-- The log stays a hash chain with rising numbers, whatever is sent to the log server.
use powder_raft.Common.{
  ℕ, ◌+◌, ◌<◌, ◌≡◌, true, false, List, [], ◌∷◌, ◌++◌, arith, ◌==◌, Bool-cases, inl, inr, All-append,
  retain-All, All,
}
use powder_raft.Types.{CachedBlock}
use powder_raft.Chain.{
  IsChain, Links, Follows, Links-append, IsChain-up_to, IsChain-above, back-end_of, end_of,
  number-end_of,
}
use powder_raft.LogServer.ReadCache
use powder_raft.LogServer.ReadCache.{retain_up_to-IsValid, put-IsValid}
use powder_raft.LogServer.State.{
  LogServer, last_number, parent_mismatch, handle_new_block, handle_rollback, update_bci,
  collect_garbage, rollback_target,
}

pub record IsValid (s : LogServer) : Type 0 where
  pub chain : IsChain s.log
  pub cache : ReadCache.IsValid s.read_cache
  -- Block numbers begin with 1.
  pub positive : All (λ b. 0 < b.n) s.log

Follows-of_tests :
    (first b : CachedBlock) (rest : List CachedBlock)
    → 0 < (end_of first rest).n
    → (b.n == last_number (first ∷ rest) + 1) ≡ true
    → parent_mismatch (first ∷ rest) b ≡ false
    → Follows (end_of first rest) b
Follows-of_tests first b rest p e m = ground (arith, back-end_of first rest)

positive-end_of :
    (first : CachedBlock) (rest : List CachedBlock)
    → 0 < first.n
    → Links first rest
    → 0 < (end_of first rest).n
positive-end_of first rest p h = omega (arith, number-end_of first rest h)

IsChain-extend :
    (b : CachedBlock) (log : List CachedBlock)
    → IsChain log
    → All (λ b. 0 < b.n) log
    → (b.n == last_number log + 1) ≡ true
    → parent_mismatch log b ≡ false
    → IsChain (log ++ b ∷ [])
IsChain-extend b [] h p e m = tt
IsChain-extend b (first ∷ rest) h p e m =
    Links-append first b rest h
      (Follows-of_tests first b rest (positive-end_of first rest p.0 h) e m)

handle_new_block-IsValid :
    (b : CachedBlock) (s : LogServer) → IsValid s → IsValid (handle_new_block b s)
unfolding handle_new_block
handle_new_block-IsValid b s v = elim (Bool-cases (b.n == last_number s.log + 1)) [
  | inr e ↦ rw e v
  | inl e ↦ elim (Bool-cases (parent_mismatch s.log b)) [
    | inl m ↦ rw (e, m) v
    | inr m ↦
        rw (e, m)
          (record {
            chain = IsChain-extend b s.log v.chain v.positive e m;
            cache = v.cache;
            positive = All-append (λ b. 0 < b.n) s.log (b ∷ []) v.positive (ground (arith), tt);
          })
  ]
]

handle_rollback-IsValid : (n : ℕ) (s : LogServer) → IsValid s → IsValid (handle_rollback n s)
unfolding handle_rollback
handle_rollback-IsValid n s v = record {
  chain = IsChain-up_to (rollback_target s.bci n) s.log v.chain;
  cache = retain_up_to-IsValid (rollback_target s.bci n) s.read_cache v.cache;
  positive = retain-All (λ b. 0 < b.n) _ s.log v.positive;
}

collect_garbage-IsValid : (n : ℕ) (s : LogServer) → IsValid s → IsValid (collect_garbage n s)
unfolding collect_garbage
collect_garbage-IsValid n s v = record {
  chain = IsChain-above n s.log v.chain;
  cache = v.cache;
  positive = retain-All (λ b. 0 < b.n) _ s.log v.positive;
}

-- What the channels of the log server bring that changes its log.
pub data Event : Type 0 where
  new_block : CachedBlock → Event
  rollback update gc : ℕ → Event

-- The branches of `worker`.
unfoldable pub step : Event → LogServer → LogServer
step (new_block b) s = handle_new_block b s
step (rollback n) s = handle_rollback n s
step (update n) s = update_bci n s
step (gc n) s = collect_garbage n s

-- Every event that changes the log keeps it a hash chain with numbers that rise by one from a
-- positive number, and keeps the read cache sorted and within its size.
pub step-IsValid : (e : Event) (s : LogServer) → IsValid s → IsValid (step e s)
unfolding step update_bci
step-IsValid (new_block b) s v = handle_new_block-IsValid b s v
step-IsValid (rollback n) s v = handle_rollback-IsValid n s v
step-IsValid (update n) s v = record { chain = v.chain; cache = v.cache; positive = v.positive }
step-IsValid (gc n) s v = collect_garbage-IsValid n s v
