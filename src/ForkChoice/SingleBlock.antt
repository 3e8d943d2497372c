-- ===== src/ForkChoice/SingleBlock.antt =====
-- Forks of one block under the fast path filter.
use powder_raft.Common.{
  ℕ, ◌+◌, ◌≤◌, ◌≡◌, refl, List, [], ◌∷◌, none, Bytes, All, arith, ◌<◌, retain-All, All-map,
}
use powder_raft.Common.Outcome.{done}
use powder_raft.ForkChoice.{
  ForkStat, Stats, Support, count_support, last_fast, fast_forks, keep_fast, filter_fast_path,
  matching_forks, fork_choice_filter, filter_highest_qc_view, filter_highest_view,
  filter_highest_len,
}

-- A fork that ends at `n` or before it.
abbrev pub EndsAt : ℕ → ForkStat → Type 0
EndsAt n f = f.fork_last_n ≤ n

-- A fork that ends at a block is not counted among those that have it.
pub count_support_ended :
    (n : ℕ) (h : Bytes) (stats : Stats) (c : Support)
    → All (λ e. EndsAt n e.1) stats
    → count_support n h stats c ≡ done c
unfolding count_support
count_support_ended n h [] c a = refl
count_support_ended n h ((s, f) ∷ stats) c a = ground (arith, count_support_ended n h stats c a.1)

last_fast_ended :
    (thresh n k : ℕ) (stats : Stats) (hs : List Bytes)
    → 0 < thresh
    → n ≤ k
    → All (λ e. EndsAt n e.1) stats
    → last_fast thresh stats k hs none ≡ done none
unfolding last_fast
last_fast_ended thresh n k stats [] p le a = refl
last_fast_ended thresh n k stats (h ∷ hs) p le a = ground (
  arith,
  count_support_ended k h stats (record { support = 0; anti_support = [] })
      (All-map (λ e. EndsAt n e.1) (λ e. EndsAt k e.1) stats (λ e q. omega arith) a),
  last_fast_ended thresh n (k + 1) stats hs p (omega arith) a,
)

-- A fork of one block, with the number `n`.
abbrev pub HasOneBlock : ℕ → ForkStat → Type 0
HasOneBlock n f = (f.first_n ≡ n) × (f.fork_last_n ≡ n)

fast_forks_ended :
    (thresh n : ℕ) (all stats : Stats)
    → 0 < thresh
    → All (λ e. EndsAt n e.1) all
    → All (λ e. HasOneBlock n e.1) stats
    → fast_forks thresh all stats ≡ done []
unfolding fast_forks
fast_forks_ended thresh n all [] p a o = refl
fast_forks_ended thresh n all ((s, f) ∷ stats) p a o = ground (
  arith,
  last_fast_ended thresh n f.first_n all f.block_hashes p (omega (arith, o.0.0)) a,
  fast_forks_ended thresh n all stats p a o.1,
)

keep_fast_none : (stats : Stats) → keep_fast [] stats ≡ []
unfolding keep_fast
keep_fast_none [] = refl
keep_fast_none (e ∷ stats) = keep_fast_none stats

-- Where enough forks hold the highest certificate and every fork consists of one block with the
-- same number, the fast path filter drops every fork.
pub filter_fast_path-drops_forks :
    (thresh n : ℕ) (stats : Stats)
    → 0 < thresh
    → thresh ≤ matching_forks stats
    → All (λ e. HasOneBlock n e.1) stats
    → filter_fast_path thresh stats ≡ done []
unfolding filter_fast_path
filter_fast_path-drops_forks thresh n stats p m o = ground (
  arith,
  fast_forks_ended thresh n stats stats p
      (All-map (λ e. HasOneBlock n e.1) (λ e. EndsAt n e.1) stats (λ e q. omega (arith, q.1)) o) o,
  keep_fast_none stats,
)

-- If every fork consists of block `n` alone, and as many as the positive threshold hold the
-- highest certificate, the choice is empty: the test `fork_last_n <= block_n` passes over the
-- last block of a fork.
pub fork_choice_filter-drops_forks :
    (thresh n : ℕ) (stats : Stats)
    → 0 < thresh
    → thresh ≤ matching_forks (filter_highest_qc_view stats)
    → All (λ e. HasOneBlock n e.1) stats
    → fork_choice_filter thresh stats ≡ done []
unfolding fork_choice_filter filter_highest_qc_view filter_highest_view filter_highest_len
fork_choice_filter-drops_forks thresh n stats p m o =
    rw (filter_fast_path-drops_forks thresh n _ p m (retain-All _ _ stats o)) refl
