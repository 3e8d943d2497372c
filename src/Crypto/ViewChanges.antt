-- ===== src/Crypto/ViewChanges.antt =====
-- `PrepareVC` and `VerifyVC` of src/crypto/service.rs: the signature of a view change message.
use powder_raft.Common.{
  ℕ, back, Bytes, some, length, Bool, Option, refl, map_or, List, none, true, ◌≡◌, ◌++◌, ◌==◌,
  if◌then◌else◌, subst, ap, arith, eqb_of_eq,
}
use powder_raft.Crypto.Keys.{Primitives, get_pubkey, KeyStore, sign, verify, PublicKey}
use powder_raft.Crypto.{default_hash, signature_length}
use powder_raft.Types.{HalfSerializedBlock, QuorumCertificate, Name, ViewChange}
use powder_raft.Common.Outcome.{done, panicked, Outcome, ◌>>=◌, ◌>>=◌, out_of_fuel, failed}
use powder_raft.Crypto.Prepare.{signed}
use powder_raft.Crypto.Service.{hash_proto_block_ser}
use powder_raft.Common.BigEndian.{to_be_bytes}

-- `buf.put_u64`
unfoldable pub put_u64 : ℕ → Bytes
unfolding to_be_bytes
put_u64 n = to_be_bytes n

-- The hash of the last block that the message carries.
unfoldable pub last_block_hash : Primitives → Option (List HalfSerializedBlock) → Outcome Bytes
unfolding hash_proto_block_ser
last_block_hash prims none = done default_hash
last_block_hash prims (some fork) =
    map_or (done default_hash) (λ b. hash_proto_block_ser prims b.serialized_body) (back fork)

abbrev pub last_qc_hash :
    Primitives → (QuorumCertificate → Bytes) → Option QuorumCertificate → Bytes
last_qc_hash prims encode_qc qc = map_or default_hash (λ q. prims.hash (encode_qc q)) qc

-- `encode_qc` is prost's. Signed are the last block, the last certificate, the view, the
-- configuration and the last block's number.
unfoldable pub signed_part : Primitives → (QuorumCertificate → Bytes) → ViewChange → Outcome Bytes
unfolding last_block_hash put_u64
signed_part prims encode_qc vc = do
  last_block ← last_block_hash prims vc.fork
  done (
      last_block
      ++ (last_qc_hash prims encode_qc vc.fork_last_qc
          ++ (put_u64 vc.view ++ (put_u64 vc.config_num ++ put_u64 vc.fork_last_n))))

unfoldable pub prepare_vc :
    Primitives → (QuorumCertificate → Bytes) → KeyStore → ViewChange → Outcome ViewChange
unfolding signed_part
prepare_vc prims encode_qc keys vc = do
  buf ← signed_part prims encode_qc vc
  done (record vc { fork_sig = sign prims keys buf })

-- A signature of another length is a panic.
unfoldable pub verify_vc :
    Primitives → (QuorumCertificate → Bytes) → KeyStore → ViewChange → Name → Outcome Bool
unfolding signed_part verify
verify_vc prims encode_qc keys vc name = do
  buf ← signed_part prims encode_qc vc
  if length vc.fork_sig == signature_length
      then done (verify prims keys name vc.fork_sig buf)
      else panicked

done_inj : (a b : ViewChange) → (done a ≡ done b) → a ≡ b
done_inj a b h = ap value h
  where
    value : Outcome ViewChange → ViewChange
    value (done v) = v
    value _ = a

module _ (prims : Primitives) (encode_qc : QuorumCertificate → Bytes) (mine theirs : KeyStore)
    (name : Name) (key : PublicKey)
    (sign_length : (message : Bytes) → length (sign prims mine message) ≡ signature_length)
    (known : get_pubkey name theirs ≡ some key)
    (sign_verifies : (message : Bytes)
      → prims.verify_data key message (sign prims mine message) ≡ true) where
  pub verify_vc-prepare_vc :
      (vc signed : ViewChange)
      → prepare_vc prims encode_qc mine vc ≡ done signed
      → verify_vc prims encode_qc theirs signed name ≡ done true
  unfolding prepare_vc verify_vc verify
  verify_vc-prepare_vc vc signed = go (signed_part prims encode_qc vc) refl
    where
      passes :
          (buf : Bytes)
          → signed_part prims encode_qc vc ≡ done buf
          → verify_vc prims encode_qc theirs (record vc { fork_sig = sign prims mine buf }) name
            ≡ done true
      passes buf e =
          rw
            (
              verify_vc,
              e,
              eqb_of_eq (length (sign prims mine buf)) 64 (sign_length buf),
              verify,
              known,
            )
            (ap done (sign_verifies buf))

      go :
          (o : Outcome Bytes)
          → signed_part prims encode_qc vc ≡ o
          → (o >>= λ buf. done (record vc { fork_sig = sign prims mine buf })) ≡ done signed
          → verify_vc prims encode_qc theirs signed name ≡ done true
      go (done buf) e h =
          subst (λ s. verify_vc prims encode_qc theirs s name ≡ done true) (done_inj _ _ h)
            (passes buf e)
      go panicked e h = absurd (ground (arith, h))
      go failed e h = absurd (ground (arith, h))
      go out_of_fuel e h = absurd (ground (arith, h))
