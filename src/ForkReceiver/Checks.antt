-- ===== src/ForkReceiver/Checks.antt =====
-- What the checks of a fork look for, apart from the code that makes them.
use powder_raft.Common.{
  ◌≡◌, true, Bytes, ap, le-or-lt, refl, none, bytes_eq, ℕ, Bool, Empty, List, sub64, map_or, Option,
  false, inr, inl, subst, Bool-cases, some, arith, ◌≢◌, ◌≤◌, ◌<◌, ◌∙◌, ◌++◌, ◌∷◌, ◌||◌, ◌==◌, ◌⊎◌,
  [],
}
use powder_raft.ForkReceiver.{
  no_hash, check_views, check_parent, settled_hash, Part, ForkReceiver, Answers, immediate,
  split_parts,
}
use powder_raft.Types.{HalfSerializedBlock, AppendEntries, Name}
use powder_raft.Common.Outcome.{panicked, done, IfDone, ◌>>=◌}
use powder_raft.Crypto.{get_parent_hash_in_proto_block_ser, Crypto}
use powder_raft.Config.{get_leader_for_view}

-- In its own configuration a node listens to the leader of the message's view alone.
abbrev pub MayLead : AppendEntries → Name → ForkReceiver → Type 0
MayLead ae sender s =
    ae.config_num ≡ s.config_num → get_leader_for_view s.config ae.view ≡ some sender

pub record IsForeign (ae : AppendEntries) (sender : Name) (s : ForkReceiver) : Type 0 where
  pub leader : Name
  pub same_config : ae.config_num ≡ s.config_num
  pub leads : get_leader_for_view s.config ae.view ≡ some leader
  pub other : leader ≢ sender

abbrev pub Judged : AppendEntries → Name → ForkReceiver → Bool → Type 0
Judged ae sender s true = MayLead ae sender s
Judged ae sender s false = IsForeign ae sender s

-- From view `v`, each block of a higher view is unstable and leads to its view, up to `top`.
pub data Rises : ℕ → List HalfSerializedBlock → ℕ → Type 0 where
  at_top : {v : ℕ} → Rises v [] v
  within :
      {v top : ℕ} {b : HalfSerializedBlock} {bs : List HalfSerializedBlock}
      → b.view ≤ v
      → Rises v bs top
      → Rises v (b ∷ bs) top
  opens :
      {v top : ℕ} {b : HalfSerializedBlock} {bs : List HalfSerializedBlock}
      → v < b.view
      → b.view_is_stable ≡ false
      → Rises b.view bs top
      → Rises v (b ∷ bs) top

pub check_views-Rises :
    (v top : ℕ) (bs : List HalfSerializedBlock) → check_views v bs ≡ some top → Rises v bs top
unfolding check_views
check_views-Rises v top [] h =
    let e : v ≡ top = ground (arith, h) in subst (λ t. Rises v [] t) e at_top
check_views-Rises v top (b ∷ bs) h = elim (le-or-lt b.view v) [
  | inl le ↦ within le (check_views-Rises v top bs (ground (arith, h, le)))
  | inr lt ↦ elim (Bool-cases b.view_is_stable) [
    | inl e ↦ absurd (ground (arith, h, lt, e))
    | inr e ↦ opens lt e (check_views-Rises b.view top bs (ground (arith, h, lt, e)))
  ]
]

pub Rises-check_views :
    (v top : ℕ) (bs : List HalfSerializedBlock) → Rises v bs top → check_views v bs ≡ some top
unfolding check_views
Rises-check_views v top [] at_top = refl
Rises-check_views v top (b ∷ bs) (within le r) = ground (arith, Rises-check_views v top bs r)
Rises-check_views v top (b ∷ bs) (opens lt e r) = ground (arith, Rises-check_views b.view top bs r)

-- A fork goes to another configuration with a stable block.
pub data IsHasty : ℕ → List HalfSerializedBlock → Type 0 where
  here :
      {c : ℕ} {b : HalfSerializedBlock} {bs : List HalfSerializedBlock}
      → b.config_num ≢ c
      → b.view_is_stable ≡ true
      → IsHasty c (b ∷ bs)
  further :
      {c : ℕ} {b : HalfSerializedBlock} {bs : List HalfSerializedBlock}
      → IsHasty b.config_num bs
      → IsHasty c (b ∷ bs)

pub split_parts-IsHasty :
    (c : ℕ) (part : Part) (bs : List HalfSerializedBlock)
    → split_parts c part bs ≡ none
    → IsHasty c bs
unfolding split_parts
split_parts-IsHasty c part [] h = absurd (ground (arith, h))
split_parts-IsHasty c part (b ∷ bs) h = elim (Bool-cases (b.config_num == c)) [
  | inl e ↦
      let same : c ≡ b.config_num = ground (arith, e) in
      further (
        subst (λ k. IsHasty k bs) same
          (split_parts-IsHasty c (part ++ b ∷ []) bs (ground (arith, h, e))))
  | inr e ↦ elim (Bool-cases b.view_is_stable) [
    | inl stable ↦ here (ground (arith, e)) stable
    | inr unstable ↦ further (
        split_parts-IsHasty b.config_num [] bs
          (go (split_parts b.config_num [] bs) (ground (arith, h, e, unstable))))
  ]
]
  where
    go :
        (o : Option (List Part))
        → ◌≡◌ {A = Option (List Part)}
            (elim o [ none ↦ none | some parts ↦ some ((part ++ b ∷ []) ∷ parts) ])
            none
        → o ≡ none
    go none k = refl
    go (some parts) k = absurd (ground (arith, k))

-- The parent of the first block is the last block that was passed on, or one of the log.
pub record Joins (crypto : Crypto) (answers : Answers) (s : ForkReceiver) (b : HalfSerializedBlock)
    : Type 0 where
  pub parent : Bytes
  pub named : get_parent_hash_in_proto_block_ser b.serialized_body ≡ some parent
  pub known :
      (settled_hash crypto s.last_ae_block_hash ≡ some parent)
      ⊎ (answers.check_hash (sub64 b.n 1) parent ≡ true)

abbrev pub JoinsAll : Crypto → Answers → ForkReceiver → List HalfSerializedBlock → Type 0
JoinsAll crypto answers s [] = Unit {0}
JoinsAll crypto answers s (b ∷ _) = Joins crypto answers s b

pub record IsLoose (crypto : Crypto) (answers : Answers) (s : ForkReceiver)
    (b : HalfSerializedBlock) : Type 0 where
  pub parent : Bytes
  pub named : get_parent_hash_in_proto_block_ser b.serialized_body ≡ some parent
  pub not_last : settled_hash crypto s.last_ae_block_hash ≢ some parent
  pub not_in_log : answers.check_hash (sub64 b.n 1) parent ≡ false

abbrev pub Looseness : Crypto → Answers → ForkReceiver → List HalfSerializedBlock → Type 0
Looseness crypto answers s [] = Empty {0}
Looseness crypto answers s (b ∷ _) = IsLoose crypto answers s b

-- What the answer of the check of the parent means.
abbrev pub Meaning : Crypto → Answers → ForkReceiver → List HalfSerializedBlock → Bool → Type 0
Meaning crypto answers s bs true = JoinsAll crypto answers s bs
Meaning crypto answers s bs false = Looseness crypto answers s bs

pub check_parent-Meaning :
    (crypto : Crypto) (answers : Answers) (bs : List HalfSerializedBlock) (s : ForkReceiver)
    → IfDone (λ p. Meaning crypto answers s bs p.0) (check_parent crypto answers bs s)
unfolding check_parent
check_parent-Meaning crypto answers [] s = tt
check_parent-Meaning crypto answers (b ∷ bs) s =
    go (get_parent_hash_in_proto_block_ser b.serialized_body) refl
  where
    weigh :
        (parent : Bytes) (o : Option Bytes) (known : Bool)
        → get_parent_hash_in_proto_block_ser b.serialized_body ≡ some parent
        → settled_hash crypto s.last_ae_block_hash ≡ o
        → answers.check_hash (sub64 b.n 1) parent ≡ known
        → Meaning crypto answers s (b ∷ bs) (map_or false (λ h. bytes_eq h parent) o || known)
    weigh parent none true e l k = record { parent = parent; named = e; known = inr k }
    weigh parent none false e l k = record {
      parent = parent;
      named = e;
      not_last = λ h. ground (arith, h, l);
      not_in_log = k;
    }
    weigh parent (some h) known e l k = elim (Bool-cases (bytes_eq h parent)) [
      | inl same ↦
          let same' : h ≡ parent = ground (arith, same) in
          rw same (record { parent = parent; named = e; known = inl (l ∙ ap some same') })
      | inr other ↦ rw other (unknown other known k)
    ]
      where
        unknown :
            bytes_eq h parent ≡ false
            → (kn : Bool) → answers.check_hash (sub64 b.n 1) parent ≡ kn
            → Meaning crypto answers s (b ∷ bs) kn
        unknown other true k = record { parent = parent; named = e; known = inr k }
        unknown other false k = record {
          parent = parent;
          named = e;
          not_last = λ eq. ground (arith, eq, l, other);
          not_in_log = k;
        }

    go :
        (o : Option Bytes)
        → get_parent_hash_in_proto_block_ser b.serialized_body ≡ o
        → IfDone
            (λ (p : Bool × ForkReceiver). Meaning crypto answers s (b ∷ bs) p.0)
            (map_or panicked done o >>= λ parent_hash. done (
              map_or false (λ h. bytes_eq h parent_hash) (settled_hash crypto s.last_ae_block_hash)
                  || answers.check_hash (sub64 b.n 1) parent_hash,
              record s {
                last_ae_block_hash =
                    map_or no_hash immediate (settled_hash crypto s.last_ae_block_hash);
              },
            ))
    go none e = tt
    go (some parent) e =
        weigh parent (settled_hash crypto s.last_ae_block_hash)
          (answers.check_hash (sub64 b.n 1) parent) e refl refl
