-- ===== src/Staging/Blocks/Fuel.antt =====
-- The recursion of the block handlers ends after one jump.
use powder_raft.Common.{
  ℕ, suc, ◌<◌, ◌≡◌, refl, Bool, true, false, arith, Bool-cases, inl, inr, ltb, ◌==◌, ◌⊎◌, sym,
}
use powder_raft.Common.Outcome.{done}
use powder_raft.Types.{CachedBlock}
use powder_raft.Config.{Config, i_am_leader}
use powder_raft.Crypto.{Crypto}
use powder_raft.Staging.State.{Staging, AppendEntriesStats}
use powder_raft.Staging.Commit.{rollback}
use powder_raft.Staging.Blocks.{process_block, accept_block, jump, jump_as_leader, jump_as_follower}

view-jump :
    (leads : Bool) (b : CachedBlock) (st : AppendEntriesStats) (s : Staging)
    → (jump leads b st s).view ≡ st.view
unfolding jump jump_as_leader jump_as_follower rollback
view-jump true b st s = refl
view-jump false b st s = refl

module _ (cfg : Config) (crypto : Crypto) (b : CachedBlock) (ack : ℕ) (st : AppendEntriesStats)
    (final : Bool) where
  in_same_view :
      (fuel : ℕ) (leads : Bool) (s : Staging)
      → st.view ≡ s.view
      → process_block (suc fuel) cfg crypto leads b ack st final s
        ≡ accept_block cfg crypto leads b ack st final s
  unfolding process_block
  in_same_view fuel leads s e =
      let low : ltb st.view s.view ≡ false = ground arith in
      let same : (st.view == s.view) ≡ true = ground arith in rw (low, same, process_block) refl

  -- Two rounds are enough, and more change nothing: a block of a lower view changes nothing;
  -- one of the current view is handled at once; and one of a higher view makes the node jump,
  -- after which the block is handled by the function for the role that the node has in the new
  -- view.
  pub process_block-Ends :
      (fuel : ℕ) (leads : Bool) (s : Staging)
      → ((st.view < s.view)
          × (process_block (suc (suc fuel)) cfg crypto leads b ack st final s ≡ done s))
        ⊎ (((st.view ≡ s.view)
              × (process_block (suc (suc fuel)) cfg crypto leads b ack st final s
                  ≡ accept_block cfg crypto leads b ack st final s))
            ⊎ ((s.view < st.view)
                × (process_block (suc (suc fuel)) cfg crypto leads b ack st final s
                    ≡ accept_block cfg crypto
                        (i_am_leader cfg (jump leads b st s).view)
                        b
                        ack
                        st
                        final
                        (jump leads b st s))))
  unfolding process_block
  process_block-Ends fuel leads s = elim (Bool-cases (ltb st.view s.view)) [
    | inl e ↦ inl (ground arith, rw (e, process_block) refl)
    | inr e ↦ inr (elim (Bool-cases (st.view == s.view)) [
      | inl e' ↦ inl (ground arith, rw (e, e', process_block) refl)
      | inr e' ↦ inr (
        ground arith,
        rw (e, e', process_block)
            (in_same_view fuel _ (jump leads b st s) (sym (view-jump leads b st s))),
      )
    ])
  ]
