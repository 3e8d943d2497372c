-- ===== src/Pacemaker/Buffer.antt =====
-- The buffer of view change messages: one message per sender, each under its own view.
use powder_raft.Common.{
  refl, insert-DistinctKeys, insert-All, lookup-All, All, map_or, DistinctKeys, ◌≡◌, [],
}
use powder_raft.Pacemaker.{Key, Pacemaker, with_message, Key-discrete, Forks}
use powder_raft.Types.{ViewChange, SenderType}
use powder_raft.ForkChoice.{SenderType-discrete}

abbrev pub IsFor : Key → ViewChange → Type 0
IsFor key vc = (vc.view ≡ key.0) × (vc.config_num ≡ key.1)

-- One message per sender, all of this view and configuration.
abbrev pub IsGathered : Key × Forks → Type 0
IsGathered (key, forks) = DistinctKeys SenderType-discrete forks × All (λ e. IsFor key e.1) forks

pub with_message-IsGathered :
    (sender : SenderType) (vc : ViewChange) (s : Pacemaker)
    → All IsGathered s.vc_buffer
    → IsGathered ((vc.view, vc.config_num), with_message sender vc s)
unfolding with_message
with_message-IsGathered sender vc s a =
    let (distinct, for_key) =
      lookup-All Key-discrete IsGathered
        (λ o. IsGathered ((vc.view, vc.config_num), map_or [] (λ forks. forks) o))
        (vc.view, vc.config_num) s.vc_buffer (tt, tt) (λ forks g. g) a in
    (
      insert-DistinctKeys SenderType-discrete sender vc _ distinct,
      insert-All SenderType-discrete (λ e. IsFor (vc.view, vc.config_num) e.1) sender vc _
          (refl, refl) for_key,
    )
