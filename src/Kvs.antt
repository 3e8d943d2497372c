-- ===== src/Kvs.antt =====
-- `KVSAppEngine` of src/consensus/engines/kvs.rs: a store with versioned crash commits above plain
-- Byzantine commits. A counter (`i64`) is its bit pattern, below 2 ^ 64.
pub mod Blocks
pub mod Keys
pub mod Validity
pub mod Spec
pub mod Refine
pub mod Commits
pub mod Settle
use powder_raft.Common.{
  ℕ, ◌+◌, Bool, true, false, ◌&&◌, List, [], ◌∷◌, ◌++◌, Option, none, some, Bytes, Bytes-discrete,
  bytes_eq, leb, ltb, ◌==◌, if◌then◌else◌, map_or, lookup, insert, back, retain, length, add64, map,
}
use powder_raft.Common.Outcome.{Outcome, done, panicked, ◌>>=◌}
use powder_raft.Types.{CachedBlock, Transaction, TransactionOp, OpResult}
use powder_raft.Common.BigEndian.{from_be_bytes, to_be_bytes}

-- The versions of a value: the block that wrote it, and the value.
abbrev pub Versions : Type 0
Versions = List (ℕ × Bytes)

pub record Kvs : Type 0 where
  pub ci_state : List (Bytes × Versions)
  pub bci_state : List (Bytes × Bytes)
  pub last_ci : ℕ
  pub last_bci : ℕ

unfoldable pub new : Kvs
new = record { ci_state = []; bci_state = []; last_ci = 0; last_bci = 0 }

-- `v.last().unwrap()`
abbrev pub last_version : Versions → Outcome (Option Bytes)
last_version vs = elim (back vs) [ none ↦ panicked | some v ↦ done (some v.1) ]

unfoldable pub read : Bytes → Kvs → Outcome (Option Bytes)
read key s = elim (lookup Bytes-discrete key s.ci_state) [
  | some vs ↦ last_version vs
  | none ↦ done (lookup Bytes-discrete key s.bci_state)
]

abbrev pub versions : Bytes → Kvs → Versions
versions key s = map_or [] (λ vs. vs) (lookup Bytes-discrete key s.ci_state)

-- A new version, of a key that the map has or of a new one.
unfoldable pub write : ℕ → Bytes → Bytes → Kvs → Kvs
write n key val s = record s {
  ci_state = insert Bytes-discrete key (versions key s ++ (n, val) ∷ []) s.ci_state;
}

abbrev pub ok_result : List Bytes → OpResult
ok_result values = record { success = true; values = values }

-- Results of an operation: none if it is skipped.
abbrev pub Step : Type 0
Step = Outcome (List OpResult × Kvs)

unfoldable pub exec_write : ℕ → List Bytes → Kvs → Step
exec_write n (key ∷ val ∷ []) s = done (ok_result [] ∷ [], write n key val s)
exec_write n _ s = done ([], s)

abbrev pub found : Option Bytes → List OpResult
found none = []
found (some value) = ok_result (value ∷ []) ∷ []

unfoldable pub exec_read : List Bytes → Kvs → Step
exec_read (key ∷ []) s = do value ← read key s; done (found value, s)
exec_read _ s = done ([], s)

-- The counter under a key: 0 if there is none, a panic if the value has not eight bytes.
abbrev pub counter : Option Bytes → Outcome ℕ
counter none = done 0
counter (some value) = map_or panicked done (from_be_bytes value)

-- `check`: the value that the counter must have, if one is given.
abbrev pub passes : Option ℕ → ℕ → Bool
passes none current = true
passes (some check) current = current == check

unfoldable pub increment : ℕ → Bytes → ℕ → Option ℕ → Kvs → Step
unfolding read write
increment n key incr_val check s = do
  value ← read key s
  current ← counter value
  let val = to_be_bytes (if passes check current then add64 current incr_val else current)
  done (ok_result (val ∷ []) ∷ [], write n key val s)

-- With three operands the second is not read.
unfoldable pub exec_increment : ℕ → List Bytes → Kvs → Step
unfolding increment
exec_increment n (key ∷ []) s = increment n key 1 none s
exec_increment n (key ∷ incr_val ∷ []) s =
    increment n key (map_or 1 (λ i. i) (from_be_bytes incr_val)) none s
exec_increment n (key ∷ _ ∷ check ∷ []) s = increment n key 1 (from_be_bytes check) s
exec_increment n _ s = done ([], s)

pub record CasOp : Type 0 where
  pub key : Bytes
  pub swap_val : Bytes
  pub compare_val : Bytes

abbrev pub add_cas : Bytes → Bytes → Bytes → Option (List CasOp) → Option (List CasOp)
add_cas k v c none = none
add_cas k v c (some ops) = some (record { key = k; swap_val = v; compare_val = c } ∷ ops)

-- The operands in threes, if their number is a multiple of three.
unfoldable pub cas_ops : List Bytes → Option (List CasOp)
cas_ops [] = some []
cas_ops (_ ∷ []) = none
cas_ops (_ ∷ _ ∷ []) = none
cas_ops (k ∷ v ∷ c ∷ rest) = add_cas k v c (cas_ops rest)

-- A missing value reads as the empty one.
unfoldable pub read_vals : List CasOp → Kvs → Outcome (List Bytes)
unfolding read
read_vals [] s = done []
read_vals (op ∷ ops) s = do
  value ← read op.key s
  rest ← read_vals ops s
  done (map_or [] (λ v. v) value ∷ rest)

unfoldable pub must_operate : List CasOp → List Bytes → Bool
must_operate (op ∷ ops) (v ∷ vs) = bytes_eq v op.compare_val && must_operate ops vs
must_operate _ _ = true

unfoldable pub swap_all : ℕ → List CasOp → Kvs → Kvs
unfolding write
swap_all n [] s = s
swap_all n (op ∷ ops) s = swap_all n ops (write n op.key op.swap_val s)

unfoldable pub exec_cas : ℕ → List Bytes → Kvs → Step
unfolding read_vals must_operate swap_all
exec_cas n operands s = elim (cas_ops operands) [
  | none ↦ done ([], s)
  | some ops ↦ do
    vals ← read_vals ops s
    let must = must_operate ops vals
    done (record { success = must; values = vals } ∷ [], if must then swap_all n ops s else s)
]

-- Unknown operation types, and known ones that the store does not serve, are skipped.
unfoldable pub exec_op : ℕ → TransactionOp → Kvs → Step
unfolding exec_write exec_read exec_increment exec_cas
exec_op n op s = elim (op.op_type == 2) [
  | true ↦ exec_write n op.operands s
  | false ↦ elim (op.op_type == 1) [
    | true ↦ exec_read op.operands s
    | false ↦ elim (op.op_type == 3) [
      | true ↦ exec_increment n op.operands s
      | false ↦ elim (op.op_type == 4) [ true ↦ exec_cas n op.operands s | false ↦ done ([], s) ]
    ]
  ]
]
