-- ===== src/Staging/Votes/Replication.antt =====
-- What a vote changes in the queue.
use powder_raft.Common.{
  ℕ, ◌≤◌, ◌≡◌, refl, true, false, List, [], ◌∷◌, ◌++◌, arith, All, Bool-cases, inl, inr, bytes_eq,
  leb_of_le, leb_of_lt, lookup_inserted, leb, lookup, some, retain, none, Empty, not, lookup-insert,
  Bytes-discrete, Option, if_both, insert, ◌≢◌, ◌<◌, ◌∙◌, ◌==◌, if◌then◌else◌, Bool, or_else,
}
use powder_raft.Types.{Name, SignatureEntry}
use powder_raft.Staging.State.{PendingBlock, is_signed}
use powder_raft.Staging.Votes.{
  contains, insert_name, vote_block, vote_blocks, sigs_left, insert_sigs,
}

-- No name stands twice in a list, so that its length counts nodes.
abbrev pub Distinct : List Name → Type 0
Distinct [] = Unit {0}
Distinct (x ∷ xs) = (contains x xs ≡ false) × Distinct xs

bytes_eq_refl : (x : Name) → bytes_eq x x ≡ true
bytes_eq_refl x = ground arith

bytes_eq_sym : (x y : Name) → bytes_eq x y ≡ bytes_eq y x
bytes_eq_sym x y = ground arith

contains-append :
    (x y : Name) (xs : List Name)
    → contains x xs ≡ false
    → bytes_eq y x ≡ false
    → contains x (xs ++ y ∷ []) ≡ false
contains-append x y [] h e = ground arith
contains-append x y (z ∷ xs) h e = ground (arith, contains-append x y xs)

Distinct-append :
    (x : Name) (xs : List Name) → contains x xs ≡ false → Distinct xs → Distinct (xs ++ x ∷ [])
Distinct-append x [] h d = (refl, tt)
Distinct-append x (y ∷ xs) h d =
    ground (arith, contains-append y x xs, bytes_eq_sym x y, Distinct-append x xs)

contains_last : (x : Name) (xs : List Name) → contains x (xs ++ x ∷ []) ≡ true
contains_last x [] = ground (arith, bytes_eq_refl x)
contains_last x (y ∷ xs) = ground (arith, contains_last x xs)

-- `insert` of a set: the name is in it, and no name is in it twice.
insert_name-Distinct :
    (x : Name) (xs : List Name)
    → Distinct xs
    → (contains x (insert_name x xs) ≡ true) × Distinct (insert_name x xs)
unfolding insert_name
insert_name-Distinct x xs d = elim (Bool-cases (contains x xs)) [
  | inl e ↦ rw e (e, d)
  | inr e ↦ rw e (contains_last x xs, Distinct-append x xs e d)
]

-- The other members stay what they were.
contains-insert_name :
    (x y : Name) (xs : List Name) → x ≢ y → contains x (insert_name y xs) ≡ contains x xs
unfolding insert_name
contains-insert_name x y xs ne = elim (Bool-cases (contains y xs)) [
  | inl e ↦ rw e refl
  | inr e ↦ rw e (contains_other xs)
]
  where
    contains_other : (zs : List Name) → contains x (zs ++ y ∷ []) ≡ contains x zs
    contains_other [] = ground (arith, ne)
    contains_other (z ∷ zs) = ground (arith, contains_other zs)

-- The last signature for a number in a vote.
abbrev pub last_for : ℕ → List SignatureEntry → Option SignatureEntry
last_for n [] = none
last_for n (e ∷ es) = elim (last_for n es) [
  | none ↦ if e.n == n then some e else none
  | some later_one ↦ some later_one
]

lookup-insert_sigs :
    (sender : Name) (n : ℕ) (es : List SignatureEntry) (sigs : List (Name × SignatureEntry))
    → lookup Bytes-discrete sender (insert_sigs sender n es sigs)
      ≡ or_else (last_for n es) (lookup Bytes-discrete sender sigs)
unfolding insert_sigs
lookup-insert_sigs sender n [] sigs = refl
lookup-insert_sigs sender n (e ∷ es) sigs =
    lookup-insert_sigs sender n es (if e.n == n then insert Bytes-discrete sender e sigs else sigs)
    ∙ go (e.n == n) (last_for n es)
  where
    go :
        (hits : Bool) (o : Option SignatureEntry)
        → or_else o (
            lookup Bytes-discrete sender
              (if hits then insert Bytes-discrete sender e sigs else sigs))
          ≡ or_else
              (elim o [ none ↦ if hits then some e else none | some later_one ↦ some later_one ])
              (lookup Bytes-discrete sender sigs)
    go true none = lookup_inserted Bytes-discrete sender e sigs
    go true (some _) = refl
    go false none = refl
    go false (some _) = refl

lookup_other :
    (x sender : Name) (n : ℕ) (es : List SignatureEntry) (sigs : List (Name × SignatureEntry))
    → x ≢ sender
    → lookup Bytes-discrete x (insert_sigs sender n es sigs) ≡ lookup Bytes-discrete x sigs
unfolding insert_sigs
lookup_other x sender n [] sigs ne = refl
lookup_other x sender n (e ∷ es) sigs ne =
    lookup_other x sender n es (if e.n == n then insert Bytes-discrete sender e sigs else sigs) ne
    ∙ if_both (λ m. lookup Bytes-discrete x m ≡ lookup Bytes-discrete x sigs) (e.n == n) _ _
        (ground (arith, ne, lookup-insert Bytes-discrete sender x e sigs)) refl

-- The signatures on a block with another number stay in the vote.
last_for-retain :
    (n m : ℕ) (es : List SignatureEntry)
    → n ≢ m
    → last_for n (retain (λ e. not (e.n == m)) es) ≡ last_for n es
last_for-retain n m [] ne = refl
last_for-retain n m (e ∷ es) ne = ground (arith, ne, last_for-retain n m es)

-- What a vote makes of one pending block.
pub record IsCounted (sender : Name) (vote_n : ℕ) (es : List SignatureEntry) (p p' : PendingBlock)
    : Type 0 where
  pub same_block : p'.cached ≡ p.cached
  pub distinct : Distinct p'.replication_set
  pub replicated : p.n ≤ vote_n → contains sender p'.replication_set ≡ true
  pub not_replicated : vote_n < p.n → p'.replication_set ≡ p.replication_set
  pub other_replicas :
      (x : Name) → x ≢ sender → contains x p'.replication_set ≡ contains x p.replication_set
  pub signed :
      is_signed p.sig ≡ true
      → lookup Bytes-discrete sender p'.vote_sigs
        ≡ or_else (last_for p.n es) (lookup Bytes-discrete sender p.vote_sigs)
  pub not_signed : is_signed p.sig ≡ false → p'.vote_sigs ≡ p.vote_sigs
  pub other_sigs :
      (x : Name)
      → x ≢ sender
      → lookup Bytes-discrete x p'.vote_sigs ≡ lookup Bytes-discrete x p.vote_sigs

vote_block-IsCounted :
    (sender : Name) (vote_n : ℕ) (es all_es : List SignatureEntry) (p : PendingBlock)
    → Distinct p.replication_set
    → last_for p.n es ≡ last_for p.n all_es
    → IsCounted sender vote_n all_es p (vote_block sender vote_n es p)
unfolding vote_block
vote_block-IsCounted sender vote_n es all_es p d same =
    let (here, distinct) = insert_name-Distinct sender p.replication_set d in
    record {
      same_block = refl;
      distinct = if_both Distinct (leb p.n vote_n) _ _ distinct d;
      replicated = λ le. rw (leb_of_le p.n vote_n le) here;
      not_replicated = λ lt. rw (leb_of_lt p.n vote_n lt) refl;
      other_replicas = λ x ne.
          if_both (λ set. contains x set ≡ contains x p.replication_set) (leb p.n vote_n) _ _
            (contains-insert_name x sender p.replication_set ne) refl;
      signed = λ h. rw h (rw (← same) (lookup-insert_sigs sender p.n es p.vote_sigs));
      not_signed = λ h. rw h refl;
      other_sigs = λ x ne.
          if_both (λ sigs. lookup Bytes-discrete x sigs ≡ lookup Bytes-discrete x p.vote_sigs)
            (is_signed p.sig) _ _ (lookup_other x sender p.n es p.vote_sigs ne) refl;
    }

-- The numbers of the pending blocks differ.
abbrev pub DistinctNumbers : List PendingBlock → Type 0
DistinctNumbers [] = Unit {0}
DistinctNumbers (p ∷ ps) = All (λ q. q.n ≢ p.n) ps × DistinctNumbers ps

-- Two lists of the same length, related block by block.
abbrev pub Pairwise :
    (PendingBlock → PendingBlock → Type 0) → List PendingBlock → List PendingBlock → Type 0
Pairwise R [] [] = Unit {0}
Pairwise R (p ∷ ps) (q ∷ qs) = R p q × Pairwise R ps qs
Pairwise R _ _ = Empty {0}

vote_blocks-Pairwise :
    (sender : Name) (vote_n : ℕ) (es all_es : List SignatureEntry) (ps : List PendingBlock)
    → All (λ p. Distinct p.replication_set) ps
    → DistinctNumbers ps
    → All (λ p. last_for p.n es ≡ last_for p.n all_es) ps
    → Pairwise (IsCounted sender vote_n all_es) ps (vote_blocks sender vote_n es ps)
unfolding vote_blocks
vote_blocks-Pairwise sender vote_n es all_es [] d ns same = tt
vote_blocks-Pairwise sender vote_n es all_es (p ∷ ps) d ns same = (
  vote_block-IsCounted sender vote_n es all_es p d.0 same.0,
  vote_blocks-Pairwise sender vote_n (sigs_left es p) all_es ps d.1 ns.1 (left ps ns.0 same.1),
)
  where
    left :
        (qs : List PendingBlock)
        → All (λ q. q.n ≢ p.n) qs
        → All (λ q. last_for q.n es ≡ last_for q.n all_es) qs
        → All (λ q. last_for q.n (sigs_left es p) ≡ last_for q.n all_es) qs
    left [] ne h = tt
    left (q ∷ qs) ne h = (
      if_both (λ xs. last_for q.n xs ≡ last_for q.n all_es) (is_signed p.sig) _ _
          (last_for-retain q.n p.n es ne.0 ∙ h.0) h.0,
      left qs ne.1 h.1,
    )

-- If no node stands twice among the replicas of a pending block and the numbers of the pending
-- blocks differ, then a vote leaves the blocks as they are. Its sender becomes a replica of the block
-- voted for and of every pending block before it, none changes among the replicas of a later block,
-- no other node comes or goes, and none stands twice. On each signed block the sender's signature is
-- then the last one in the vote for its number, if there is one, or the one it had; the signatures of
-- other nodes, and those on unsigned blocks, stay.
pub vote_blocks-IsCounted :
    (sender : Name) (vote_n : ℕ) (es : List SignatureEntry) (ps : List PendingBlock)
    → All (λ p. Distinct p.replication_set) ps
    → DistinctNumbers ps
    → Pairwise (IsCounted sender vote_n es) ps (vote_blocks sender vote_n es ps)
vote_blocks-IsCounted sender vote_n es ps d ns =
    vote_blocks-Pairwise sender vote_n es es ps d ns (own ps)
  where
    own : (qs : List PendingBlock) → All (λ q. last_for q.n es ≡ last_for q.n es) qs
    own [] = tt
    own (q ∷ qs) = (refl, own qs)
