-- ===== src/Examples/Wire.antt =====
-- Blocks as bytes, with a codec that knows one block and signatures that are all alike.
use powder_raft.Common.{
  Bytes-discrete, sub64, length, replicate, refl, true, lookup, bytes_eq, some, ◌≡◌, ◌∷◌, ◌==◌, [],
}
use powder_raft.Crypto.Prepare.{prepared, prepare_block-prefilled}
use powder_raft.Config.{get_leader_for_view}
use powder_raft.Crypto.Serialize.{
  Codec, deserialize_proto_block, is_null, serialize_proto_block_prefilled, cleared,
}
use powder_raft.Crypto.Service.{
  hash_proto_block_ser, check_block_ser, immediate, prepare_block, verify_qc, verify_block_ser,
  accepted, cached, await_hash,
}
use powder_raft.Crypto.Verify.{deserialize_proto_block-prefilled, read_back}
use powder_raft.Crypto.Accept.{Verdict, verify_block_ser-Verdict}
use powder_raft.Examples.Fixtures.{block, qc_for, cluster, node}
use powder_raft.Types.{Block, QuorumCertificate, CachedBlock, NameWithSignature, proposer_sig}
use powder_raft.Crypto.Keys.{Primitives, KeyStore, get_pubkey}
use powder_raft.Crypto.Certificates.{verify_qc-repeats}
use powder_raft.Crypto.Delivery.{verify_block_ser-prepared}
use powder_raft.Common.Outcome.{IfDone, done, ◌>>=◌}

abbrev one_signature : NameWithSignature
one_signature = record { name = node 1; sig = replicate 64 1 }

-- A certificate in which node 1 stands three times.
abbrev qc : QuorumCertificate
qc = record (qc_for 1) { sig = replicate 3 one_signature }

abbrev sent : Block
sent = record (block 2).block { qc = qc ∷ [] }

abbrev codec : Codec
codec = record { encode = λ _. 9 ∷ 9 ∷ []; decode = λ _. some (cleared sent) }

abbrev prims : Primitives
prims = record {
  hash = λ _. replicate 64 7;
  sign_data = λ _ _. replicate 64 1;
  verify_data = λ _ _ sig. bytes_eq sig (replicate 64 1);
  verify_batch = λ messages sigs keys. length messages == length sigs;
}

abbrev keys : KeyStore
keys = record { pub_keys = (node 1, 5 ∷ []) ∷ []; priv_key = 6 ∷ [] }

abbrev received : Block
received = record sent { parent = replicate 64 3; sig = some (proposer_sig (replicate 64 1)) }

deserialize_proto_block-prefilled_example :
    deserialize_proto_block codec (serialize_proto_block_prefilled codec received)
    ≡ done (some (record received { sig = read_back received.sig }))
unfolding is_null
deserialize_proto_block-prefilled_example =
    deserialize_proto_block-prefilled codec received refl refl (refl, refl)

prepare_block-prefilled_example :
    prepare_block prims codec keys sent true (immediate (replicate 64 3)) ≡ (
      hash_proto_block_ser prims (
        serialize_proto_block_prefilled codec
          (prepared prims codec keys true sent (replicate 64 3)))
      >>= λ hsh. done (
          cached
            (serialize_proto_block_prefilled codec
              (prepared prims codec keys true sent (replicate 64 3)))
            hsh
            (prepared prims codec keys true sent (replicate 64 3))))
unfolding await_hash
prepare_block-prefilled_example =
    prepare_block-prefilled prims codec keys (λ _. refl) sent true (immediate (replicate 64 3))
      (replicate 64 3) refl refl

verify_qc-repeats_example : verify_qc prims keys qc 3 ≡ true
unfolding get_pubkey lookup Bytes-discrete
verify_qc-repeats_example =
    verify_qc-repeats prims keys (qc_for 1) one_signature (5 ∷ []) 3 refl refl refl

verify_block_ser-prepared_example :
    (c : CachedBlock) × (prepare_block prims codec keys sent true (immediate (replicate 64 3))
      ≡ done c)
    × (verify_block_ser prims codec keys cluster 3 c.block_ser ≡ done (accepted c))
    × (check_block_ser prims codec c.block_hash (some c.block_ser) ≡ done (accepted c))
unfolding get_pubkey lookup Bytes-discrete await_hash get_leader_for_view is_null sub64
verify_block_ser-prepared_example =
    verify_block_ser-prepared prims codec keys keys cluster (node 1) (5 ∷ []) (λ _. refl)
      (λ _. refl) refl (λ _. refl) sent (immediate (replicate 64 3)) (replicate 64 3) 3 refl refl
      refl refl (verify_qc-repeats_example, tt)

verify_block_ser-Verdict_example :
    IfDone
      (Verdict prims codec keys cluster 3 (replicate 200 1))
      (verify_block_ser prims codec keys cluster 3 (replicate 200 1))
verify_block_ser-Verdict_example =
    verify_block_ser-Verdict prims codec keys cluster 3 (replicate 200 1)
