-- ===== src/ForkReceiver/Forwarding.antt =====
-- What becomes of a fork that arrives.
use powder_raft.Common.{ℕ, some, List, ◌≡◌, ◌≤◌, ◌++◌, ◌∷◌, []}
use powder_raft.Types.{HalfSerializedBlock, AppendEntries, Name}
use powder_raft.ForkReceiver.{Answers, forward, ForkReceiver, MultipartFork}
use powder_raft.Crypto.{Crypto}
use powder_raft.ForkReceiver.Checks.{JoinsAll, Rises, MayLead}

record Sends (m : MultipartFork) (s s' : ForkReceiver) : Type 0 where
  same_buffer : s'.multipart_buffer ≡ s.multipart_buffer
  sent_one : s'.sent ≡ s.sent ++ forward m ∷ []

-- A message whose fork passed the checks, at a receiver where no part waits.
record IsChecked (crypto : Crypto) (answers : Answers) (ae : AppendEntries) (sender : Name)
    (s : ForkReceiver) (blocks : List HalfSerializedBlock) (top : ℕ) : Type 0 where
  idle : s.multipart_buffer ≡ []
  whole : ae.fork ≡ some blocks
  not_old : s.view ≤ ae.view
  by_leader : MayLead ae sender s
  joins : JoinsAll crypto answers s blocks
  views : Rises s.view blocks top
  reached : ae.view ≤ top
