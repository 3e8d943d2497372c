-- ===== src/ForkChoice.antt =====
-- src/consensus/staging/fork_choice.rs: which of the forks in the view change messages the new
-- leader proposes (feature `fast_path`).
pub mod Rules
pub mod SingleBlock
use powder_raft.Common.{
  ℕ, zero, suc, ◌+◌, ◌-◌, ◌≡◌, Bool, true, false, ◌&&◌, not, List, [], ◌∷◌, ◌++◌, Option, none,
  some, map, ltb, leb, ◌==◌, if◌then◌else◌, Bytes, Bytes-discrete, bytes_eq, retain, any, length,
  get_elem?, map_or, lookup, insert, ℕ_discrete,
}
use powder_raft.Common.Outcome.{Outcome, done, panicked, ◌>>=◌}
use powder_raft.Types.{QuorumCertificate, SenderType}

-- `ForkStat` of src/consensus/staging/view_change.rs.
pub record ForkStat : Type 0 where
  pub block_hashes : List Bytes
  pub fork_last_n : ℕ
  pub first_n : ℕ
  pub first_parent : Bytes
  pub last_qc : Option QuorumCertificate
  pub last_view : ℕ
  pub last_config_num : ℕ

unfoldable pub SenderType-discrete : Discrete SenderType
unfolding ℕ_discrete
SenderType-discrete = hlevel ℕ_discrete

abbrev pub sender_eq : SenderType → SenderType → Bool
sender_eq a b = elim (SenderType-discrete a b) [ yes _ ↦ true | no _ ↦ false ]

abbrev pub Stats : Type 0
Stats = List (SenderType × ForkStat)

-- `iter().map(f).max().unwrap_or(0)`.
unfoldable pub max_by {ℓ} : {A : Type ℓ} → (A → ℕ) → List A → ℕ
max_by f [] = 0
max_by f (x ∷ xs) = let m = max_by f xs in if leb (f x) m then m else f x

abbrev pub qc_view : ForkStat → ℕ
qc_view f = map_or 0 (λ q. q.view) f.last_qc

abbrev pub qc_n : ForkStat → ℕ
qc_n f = map_or 0 (λ q. q.n) f.last_qc

abbrev pub has_qc_view : ℕ → ForkStat → Bool
has_qc_view v f = map_or false (λ q. q.view == v) f.last_qc

abbrev pub has_qc_n : ℕ → ForkStat → Bool
has_qc_n n f = map_or false (λ q. q.n == n) f.last_qc

unfoldable pub filter_highest_qc_view : Stats → Stats
filter_highest_qc_view stats =
    let highest_qc_view = max_by (λ e. qc_view e.1) stats in
    retain (λ e. if highest_qc_view == 0 then true else has_qc_view highest_qc_view e.1) stats

unfoldable pub filter_highest_view : Stats → Stats
filter_highest_view stats =
    let highest_view = max_by (λ e. e.1.last_view) stats in
    retain (λ e. e.1.last_view == highest_view) stats

unfoldable pub filter_highest_len : Stats → Stats
filter_highest_len stats =
    let highest_len = max_by (λ e. e.1.fork_last_n) stats in
    retain (λ e. e.1.fork_last_n == highest_len) stats

-- The counters of the innermost loop: how many forks have the block, and how many have which other
-- block in its place.
pub record Support : Type 0 where
  pub support : ℕ
  pub anti_support : List (Bytes × ℕ)

unfoldable pub count_hash : Bytes → List (Bytes × ℕ) → List (Bytes × ℕ)
count_hash h m =
    insert Bytes-discrete h (map_or 1 (λ count. count + 1) (lookup Bytes-discrete h m)) m

unfoldable pub count_block : Bytes → Bytes → Support → Support
count_block mine other c =
    if bytes_eq other mine
    then record c { support = c.support + 1 }
    else record c { anti_support = count_hash other c.anti_support }

-- Whether the loop passes a fork over at a number.
abbrev pub passes_over : ℕ → ForkStat → Bool
passes_over block_n other =
    if ltb block_n other.first_n then true else leb other.fork_last_n block_n

-- The loop over the other forks. An index out of range panics.
unfoldable pub count_support : ℕ → Bytes → Stats → Support → Outcome Support
count_support block_n mine [] c = done c
count_support block_n mine ((_, other) ∷ stats) c = elim (passes_over block_n other) [
  | true ↦ count_support block_n mine stats c
  | false ↦ elim (get_elem? other.block_hashes (block_n - other.first_n)) [
    | none ↦ panicked
    | some h ↦ count_support block_n mine stats (count_block mine h c)
  ]
]

-- Whether a block could have gone the fast path.
abbrev pub could_commit : ℕ → Support → Bool
could_commit thresh c = leb thresh c.support && ltb (max_by (λ e. e.1) c.anti_support) thresh

-- The loop over the blocks of a fork from number `block_n` on: the last one that could have gone
-- the fast path, `best` if there is none.
unfoldable pub last_fast : ℕ → Stats → ℕ → List Bytes → Option ℕ → Outcome (Option ℕ)
last_fast thresh stats block_n [] best = done best
last_fast thresh stats block_n (h ∷ hs) best = do
  c ← count_support block_n h stats (record { support = 0; anti_support = [] })
  last_fast thresh stats (block_n + 1) hs (if could_commit thresh c then some block_n else best)

abbrev pub add_fork : SenderType → Option ℕ → List (SenderType × ℕ) → List (SenderType × ℕ)
add_fork sender none m = m
add_fork sender (some n) m = (sender, n) ∷ m

-- `highest_fast_path_committed_forks`: for each fork its last such block, if there is one.
unfoldable pub fast_forks : ℕ → Stats → Stats → Outcome (List (SenderType × ℕ))
unfolding last_fast
fast_forks thresh all [] = done []
fast_forks thresh all ((sender, stat) ∷ stats) = do
  best ← last_fast thresh all stat.first_n stat.block_hashes none
  rest ← fast_forks thresh all stats
  done (add_fork sender best rest)

-- How many forks hold the highest certificate.
abbrev pub matching_forks : Stats → ℕ
matching_forks stats = length (retain (λ e. has_qc_n (max_by (λ e. qc_n e.1) stats) e.1) stats)

-- The forks whose last such block is the highest.
unfoldable pub keep_fast : List (SenderType × ℕ) → Stats → Stats
keep_fast fast stats =
    let highest = max_by (λ e. e.1) fast in
    let applicable = retain (λ e. leb highest e.1) fast in
    retain (λ e. any (λ a. sender_eq a.0 e.0) applicable) stats

unfoldable pub filter_fast_path : ℕ → Stats → Outcome Stats
unfolding fast_forks keep_fast
filter_fast_path thresh stats =
    if ltb (matching_forks stats) thresh
    then done stats
    else (do fast ← fast_forks thresh stats stats; done (keep_fast fast stats))

unfoldable pub fork_choice_filter : ℕ → Stats → Outcome (List SenderType)
unfolding filter_highest_qc_view filter_highest_view filter_highest_len filter_fast_path
fork_choice_filter thresh stats = do
  fast ← filter_fast_path thresh (filter_highest_qc_view stats)
  done (map (λ e. e.0) (filter_highest_len (filter_highest_view fast)))
