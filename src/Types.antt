-- ===== src/Types.antt =====
-- The messages of src/proto/consensus.proto and src/proto/execution.proto, and the cached block of
-- src/crypto/service.rs.
use powder_raft.Common.{ℕ, Bool, List, Option, Bytes}

-- A node's name, as the bytes of the `String`.
abbrev pub Name : Type 0
Name = Bytes

pub record NameWithSignature : Type 0 where
  pub name : Name
  pub sig : Bytes

pub record QuorumCertificate : Type 0 where
  pub digest : Bytes
  pub n : ℕ
  pub sig : List NameWithSignature
  pub view : ℕ

pub record SignatureEntry : Type 0 where
  pub n : ℕ
  pub sig : Bytes

pub record Vote : Type 0 where
  pub sig_array : List SignatureEntry
  pub fork_digest : Bytes
  pub n : ℕ
  pub view : ℕ
  pub config_num : ℕ

-- `op_type` is the number on the wire.
pub record TransactionOp : Type 0 where
  pub op_type : ℕ
  pub operands : List Bytes

pub record Transaction : Type 0 where
  pub on_receive : Option (List TransactionOp)
  pub on_crash_commit : Option (List TransactionOp)
  pub on_byzantine_commit : Option (List TransactionOp)
  pub is_reconfiguration : Bool
  pub is_2pc : Bool

pub record OpResult : Type 0 where
  pub success : Bool
  pub values : List Bytes

pub record ForkValidation : Type 0 where
  pub vc_view : ℕ
  pub vc_config_num : ℕ
  pub block_hashes : List Bytes
  pub fork_last_n : ℕ
  pub fork_last_qc : Option QuorumCertificate
  pub fork_last_view : ℕ
  pub fork_last_config_num : ℕ
  pub vc_sig : Bytes
  pub sender : Name

-- The `oneof sig` of a block.
pub data Sig : Type 0 where
  no_sig : Sig
  proposer_sig : Bytes → Sig

pub record Block : Type 0 where
  pub tx_list : List Transaction
  pub n : ℕ
  pub parent : Bytes
  pub view : ℕ
  pub qc : List QuorumCertificate
  pub fork_validation : List ForkValidation
  pub view_is_stable : Bool
  pub config_num : ℕ
  pub sig : Option Sig

-- `CachedBlock`: the block, its serialised form and its hash. `c.n` is `block.block.n`.
pub record CachedBlock : Type 0 where
  pub block : Block
  pub open block use *
  pub block_ser : Bytes
  pub block_hash : Bytes

pub record HalfSerializedBlock : Type 0 where
  pub n : ℕ
  pub view : ℕ
  pub view_is_stable : Bool
  pub config_num : ℕ
  pub serialized_body : Bytes

-- A block as forks carry it.
abbrev pub half_serialized : CachedBlock → HalfSerializedBlock
half_serialized b = record {
  n = b.n;
  view = b.view;
  view_is_stable = b.view_is_stable;
  config_num = b.config_num;
  serialized_body = b.block_ser;
}

pub record ViewChange : Type 0 where
  pub view : ℕ
  pub config_num : ℕ
  pub fork : Option (List HalfSerializedBlock)
  pub fork_last_qc : Option QuorumCertificate
  pub fork_last_n : ℕ
  pub fork_sig : Bytes

pub record AppendEntries : Type 0 where
  pub fork : Option (List HalfSerializedBlock)
  pub commit_index : ℕ
  pub view : ℕ
  pub view_is_stable : Bool
  pub config_num : ℕ
  pub is_backfill_response : Bool

pub record BlockHint : Type 0 where
  pub block_n : ℕ
  pub digest : Bytes

-- Who sent a message.
pub data SenderType : Type 0 where
  anon : SenderType
  auth : Name → ℕ → SenderType
