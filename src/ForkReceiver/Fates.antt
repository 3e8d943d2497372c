-- ===== src/ForkReceiver/Fates.antt =====
-- What can become of a fork that arrives, and why.
use powder_raft.Common.{ℕ, some, map, true, length, List, ◌≡◌, ◌≤◌, ◌++◌, ◌∷◌, [], ◌<◌, ◌⊎◌}
use powder_raft.ForkReceiver.Parts.{concat}
use powder_raft.Types.{HalfSerializedBlock, AppendEntries, BlockHint, Name}
use powder_raft.Staging.State.{AppendEntriesStats}
use powder_raft.ForkReceiver.{Answers, forward, backfill_nack, Part, ForkReceiver, MultipartFork}
use powder_raft.Crypto.{Crypto}
use powder_raft.ForkReceiver.Checks.{Looseness, JoinsAll, Rises, IsHasty, MayLead, IsForeign}

abbrev pub waiting_parts : ForkReceiver → List Part
waiting_parts s = map (λ (e : Part × AppendEntriesStats). e.0) s.multipart_buffer

module _ (crypto : Crypto) (answers : Answers) (ae : AppendEntries) (sender : Name)
    (s : ForkReceiver) where
  -- Why a message is dropped.
  pub data IsUnfit : Type 0 where
    old : (ae.view < s.view) ⊎ (ae.config_num < s.config_num) → IsUnfit
    foreign : IsForeign ae sender s → IsUnfit
    hasty :
        (blocks : List HalfSerializedBlock)
        → ae.fork ≡ some blocks
        → IsHasty s.config_num blocks
        → IsUnfit
    empty : ae.fork ≡ some [] → IsUnfit

  -- Why a fork is refused.
  pub data IsRefused : Type 0 where
    loose :
        (blocks : List HalfSerializedBlock)
        → ae.fork ≡ some blocks
        → Looseness crypto answers s blocks
        → IsRefused
    falls_short :
        (blocks : List HalfSerializedBlock)
        → ae.fork ≡ some blocks
        → ((top : ℕ) → Rises s.view blocks top → top < ae.view)
        → IsRefused

  -- One part went on and the others wait, in the order of the fork, with none of its blocks lost; it
  -- joins what is known; each new view began with an unstable block, up to the view of the message;
  -- and the sender may lead.
  pub record IsForwarded (s' : ForkReceiver) : Type 0 where
    pub blocks : List HalfSerializedBlock
    pub top : ℕ
    pub first : MultipartFork
    pub whole : ae.fork ≡ some blocks
    pub not_old : s.view ≤ ae.view
    pub by_leader : MayLead ae sender s
    pub joins : JoinsAll crypto answers s blocks
    pub views : Rises s.view blocks top
    pub reached : ae.view ≤ top
    pub sent_one : s'.sent ≡ s.sent ++ forward first ∷ []
    pub nothing_lost : first.part ++ concat (waiting_parts s') ≡ blocks
    pub counted : first.remaining_parts ≡ length s'.multipart_buffer

  pub data Fate : ForkReceiver → Type 0 where
    dropped : (s' : ForkReceiver) → s'.sent ≡ s.sent → IsUnfit → Fate s'
    nacked :
        (s' : ForkReceiver) (hints : List BlockHint) (last : ℕ)
        → s'.sent ≡ s.sent ++ backfill_nack sender ae hints last ∷ []
        → s'.waiting_on_nack_reply ≡ true
        → IsRefused
        → Fate s'
    forwarded : (s' : ForkReceiver) → IsForwarded s' → Fate s'
