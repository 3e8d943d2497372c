-- ===== src/Broadcaster/Stored.antt =====
-- The invariant that the broadcaster states: what it gives out is stored.
use powder_raft.Common.{
  ℕ, inl, ap, inr, List, refl, Option, In, All, none, some, map, ◌++◌, ◌∷◌, [],
}
use powder_raft.Staging.State.{AppendEntriesStats}
use powder_raft.Broadcaster.{
  to_staging, process_my_block, Broadcaster, to_app, Command, broadcast_ae_fork, put_block,
  broadcast, my_stats, multipart_nack, forward_part, forward_fork, Event, my_block, update_ci,
  next_ae_fork_prefix, process_other_block, emit, all_verified, worker, other_block,
}
use powder_raft.Types.{HalfSerializedBlock, CachedBlock, half_serialized}
use powder_raft.Common.Outcome.{IfDone, done, panicked}

-- What is given to storage, on top of what was.
abbrev pub stored_by : List Command → List CachedBlock → List CachedBlock
stored_by [] st = st
stored_by (put_block b ∷ cmds) st = stored_by cmds (b ∷ st)
stored_by (to_staging _ _ _ ∷ cmds) st = stored_by cmds st
stored_by (to_app _ ∷ cmds) st = stored_by cmds st
stored_by (broadcast _ _ _ ∷ cmds) st = stored_by cmds st
stored_by (multipart_nack _ ∷ cmds) st = stored_by cmds st

abbrev pub blocks_of : Option (List HalfSerializedBlock) → List HalfSerializedBlock
blocks_of none = []
blocks_of (some blocks) = blocks

-- A block goes to staging, or to other nodes, after it went to storage.
abbrev pub StoredFirst : List CachedBlock → List Command → Type 0
StoredFirst st [] = Unit {0}
StoredFirst st (put_block b ∷ cmds) = StoredFirst (b ∷ st) cmds
StoredFirst st (to_staging b _ _ ∷ cmds) = In b st × StoredFirst st cmds
StoredFirst st (to_app _ ∷ cmds) = StoredFirst st cmds
StoredFirst st (broadcast _ ae _ ∷ cmds) =
    All (λ h. In h (map half_serialized st)) (blocks_of ae.fork) × StoredFirst st cmds
StoredFirst st (multipart_nack _ ∷ cmds) = StoredFirst st cmds

StoredFirst-append :
    (st : List CachedBlock) (xs ys : List Command)
    → StoredFirst st xs
    → StoredFirst (stored_by xs st) ys
    → StoredFirst st (xs ++ ys)
StoredFirst-append st [] ys p q = q
StoredFirst-append st (put_block b ∷ xs) ys p q = StoredFirst-append (b ∷ st) xs ys p q
StoredFirst-append st (to_staging _ _ _ ∷ xs) ys p q = (p.0, StoredFirst-append st xs ys p.1 q)
StoredFirst-append st (to_app _ ∷ xs) ys p q = StoredFirst-append st xs ys p q
StoredFirst-append st (broadcast _ _ _ ∷ xs) ys p q = (p.0, StoredFirst-append st xs ys p.1 q)
StoredFirst-append st (multipart_nack _ ∷ xs) ys p q = StoredFirst-append st xs ys p q

forward_fork-StoredFirst :
    (stats : CachedBlock → AppendEntriesStats) (bs st : List CachedBlock)
    → StoredFirst st (forward_fork stats bs)
unfolding forward_fork
forward_fork-StoredFirst stats [] st = tt
forward_fork-StoredFirst stats (b ∷ bs) st = (inl refl, forward_fork-StoredFirst stats bs (b ∷ st))

In-forward_fork :
    (stats : CachedBlock → AppendEntriesStats) (bs st : List CachedBlock) (x : CachedBlock)
    → In x st
    → In x (stored_by (forward_fork stats bs) st)
unfolding forward_fork
In-forward_fork stats [] st x i = i
In-forward_fork stats (b ∷ bs) st x i = In-forward_fork stats bs (b ∷ st) x (inr i)

forward_fork-stores :
    (stats : CachedBlock → AppendEntriesStats) (bs st : List CachedBlock)
    → All (λ b. In b (stored_by (forward_fork stats bs) st)) bs
unfolding forward_fork
forward_fork-stores stats [] st = tt
forward_fork-stores stats (b ∷ bs) st =
    (In-forward_fork stats bs (b ∷ st) b (inl refl), forward_fork-stores stats bs (b ∷ st))

In-map : {A B : Type 0} (f : A → B) (x : A) (xs : List A) → In x xs → In (f x) (map f xs)
In-map f x [] i = elim i [ ]
In-map f x (y ∷ ys) (inl e) = inl (ap f e)
In-map f x (y ∷ ys) (inr i) = inr (In-map f x ys i)

halves :
    (st bs : List CachedBlock)
    → All (λ b. In b st) bs
    → All (λ h. In h (map half_serialized st)) (map half_serialized bs)
halves st [] a = tt
halves st (b ∷ bs) a = (In-map half_serialized b st a.0, halves st bs a.1)

forward_part-StoredFirst :
    (stats : AppendEntriesStats) (bs st : List CachedBlock) → StoredFirst st (forward_part stats bs)
unfolding forward_part
forward_part-StoredFirst stats [] st = tt
forward_part-StoredFirst stats (b ∷ bs) st = (inl refl, forward_part-StoredFirst stats bs (b ∷ st))

process_my_block-StoredFirst :
    (block : CachedBlock) (s : Broadcaster)
    → StoredFirst [] s.sent
    → StoredFirst [] (process_my_block block s).sent
unfolding process_my_block broadcast_ae_fork
process_my_block-StoredFirst block s p = StoredFirst-append [] s.sent _ p (
    StoredFirst-append st (forward_fork stats ae_fork) _ (forward_fork-StoredFirst stats ae_fork st)
      (
        halves (stored_by (forward_fork stats ae_fork) st) ae_fork
            (forward_fork-stores stats ae_fork st),
        tt,
      ))
  where
    st : List CachedBlock
    st = stored_by s.sent []

    stats : CachedBlock → AppendEntriesStats
    stats = my_stats block s

    ae_fork : List CachedBlock
    ae_fork = s.fork_prefix_buffer ++ block ∷ []

process_other_block-StoredFirst :
    (blocks : List (Option CachedBlock)) (remaining_parts : ℕ) (ae_stats : AppendEntriesStats)
    (s : Broadcaster)
    → StoredFirst [] s.sent
    → StoredFirst [] (process_other_block blocks remaining_parts ae_stats s).sent
unfolding process_other_block
process_other_block-StoredFirst blocks remaining_parts ae_stats s p = go (all_verified blocks)
  where
    go :
        (o : Option (List CachedBlock))
        → StoredFirst []
            (elim o as (λ _. Broadcaster) [
              | none ↦ emit (multipart_nack remaining_parts ∷ []) s
              | some bs ↦ emit (forward_part ae_stats bs) s
            ]).sent
    go none = StoredFirst-append [] s.sent (multipart_nack remaining_parts ∷ []) p tt
    go (some bs) =
        StoredFirst-append [] s.sent (forward_part ae_stats bs) p
          (forward_part-StoredFirst ae_stats bs (stored_by s.sent []))

-- Every event that the broadcaster handles keeps its invariant: whatever it has given to staging or
-- sent to other nodes, it had given to storage before.
pub worker-StoredFirst :
    (event : Event) (s : Broadcaster)
    → StoredFirst [] s.sent
    → IfDone (λ s'. StoredFirst [] s'.sent) (worker event s)
unfolding worker
worker-StoredFirst (my_block none) s p = p
worker-StoredFirst (my_block (some block)) s p = process_my_block-StoredFirst block s p
worker-StoredFirst (other_block blocks remaining_parts ae_stats) s p =
    process_other_block-StoredFirst blocks remaining_parts ae_stats s p
worker-StoredFirst (update_ci ci) s p = p
worker-StoredFirst (next_ae_fork_prefix blocks) s p = go (all_verified blocks)
  where
    go :
        (o : Option (List CachedBlock))
        → IfDone
            (λ s'. StoredFirst [] s'.sent)
            (elim o [
              | none ↦ panicked
              | some bs ↦ done (record s { fork_prefix_buffer = s.fork_prefix_buffer ++ bs })
            ])
    go none = tt
    go (some bs) = p
