-- ===== src/Crypto/Accept.antt =====
-- Which blocks a node accepts from others.
use powder_raft.Common.{
  ℕ, none, Option, map_or, drop, some, arith, Bytes, refl, length, List, ltb, ◌≡◌, ◌≢◌, ◌∷◌, ◌&&◌,
  ◌==◌, [], if◌then◌else◌, false, Bool, true, ltb_of_lt, ◌+◌, subst, inr, sym, inl, Bool-cases, In,
}
use powder_raft.Common.Outcome.{panicked, IfDone, done, ◌>>=◌, out_of_fuel, Outcome, failed}
use powder_raft.Crypto.Service.{
  decode_error, verify_qc, invalid_signature, all, verify_block_ser, Checked,
  qc_without_signed_block, refused, invalid_qc, block_error, accepted, hash_proto_block_ser,
  BlockError, cached,
}
use powder_raft.Crypto.Keys.{verify, Primitives, KeyStore}
use powder_raft.Types.{QuorumCertificate, Sig, no_sig, proposer_sig, CachedBlock, Block, Name}
use powder_raft.Crypto.{signature_length, digest_length}
use powder_raft.Config.{Config, get_leader_for_view}
use powder_raft.Crypto.Verify.{
  IsVerified, by_leader, all-All, without_certificates, all-In, IsFault, bad_signature,
  unsigned_certificate, bad_certificate,
}
use powder_raft.Crypto.Serialize.{Codec, deserialize_proto_block}

module _ (prims : Primitives) (keys : KeyStore) (config : Config) (min_qc_len : ℕ)
    (block_ser : Bytes) where
  abbrev Reason : Block → Option BlockError → Type 0
  Reason block none = IsVerified prims keys config min_qc_len block_ser block
  Reason block (some error) = IsFault prims keys config min_qc_len block_ser block error

  unsigned :
      (block : Block) (qcs : List QuorumCertificate)
      → ((sig : Bytes) → block.sig ≢ some (proposer_sig sig))
      → block.qc ≡ qcs
      → Reason block (if ltb 0 (length qcs) then some qc_without_signed_block else none)
  unsigned block [] free e = without_certificates free e
  unsigned block (qc ∷ qcs) free e =
      rw (ltb_of_lt 0 (length (qc ∷ qcs)) (omega arith))
        (unsigned_certificate qc free (subst (In qc) (sym e) (inl refl)))

  block_error-Reason :
      (block : Block)
      → IfDone (Reason block) (block_error prims keys config min_qc_len block_ser block)
  unfolding block_error
  block_error-Reason block = go block.sig refl
    where
      signed_by :
          (sig : Bytes) (leader : Option Name)
          → block.sig ≡ some (proposer_sig sig)
          → get_leader_for_view config block.view ≡ leader
          → IfDone (Reason block) (
              map_or panicked done leader >>= λ leader_for_view. done (
                if length sig == signature_length
                  && verify prims keys leader_for_view sig
                      (prims.hash (drop signature_length block_ser))
                then if all (λ qc. verify_qc prims keys qc min_qc_len) block.qc
                  then none
                  else some invalid_qc
                else some invalid_signature))
      signed_by sig none s l = tt
      signed_by sig (some leader) s l = elim (Bool-cases (length sig == signature_length)) [
        | inr e ↦ rw e (bad_signature leader sig l s (inl λ h. ground (arith, e, h)))
        | inl e ↦ rw e (elim (Bool-cases (verify prims keys leader sig hsh)) [
          | inr e' ↦ rw e' (bad_signature leader sig l s (inr e'))
          | inl e' ↦
              rw e' (elim (Bool-cases (all (λ qc. verify_qc prims keys qc min_qc_len) block.qc)) [
                | inr e'' ↦
                    let (qc, here, fails) =
                      all-In (λ qc. verify_qc prims keys qc min_qc_len) block.qc e'' in
                    rw e'' (bad_certificate sig qc s here fails)
                | inl e'' ↦ rw e'' (
                    by_leader leader sig l s (ground (arith, e)) e'
                      (all-All (λ qc. verify_qc prims keys qc min_qc_len) block.qc e''))
              ])
        ])
      ]
        where
          hsh : Bytes
          hsh = prims.hash (drop signature_length block_ser)

      go :
          (s : Option Sig)
          → block.sig ≡ s
          → IfDone (Reason block) (elim s [
            | some (proposer_sig sig) ↦
                map_or panicked done (get_leader_for_view config block.view) >>= λ leader_for_view.
                done (
                  if length sig == signature_length
                    && verify prims keys leader_for_view sig
                        (prims.hash (drop signature_length block_ser))
                  then if all (λ qc. verify_qc prims keys qc min_qc_len) block.qc
                    then none
                    else some invalid_qc
                  else some invalid_signature)
            | _ ↦ done (if ltb 0 (length block.qc) then some qc_without_signed_block else none)
          ])
      go none e = unsigned block block.qc (λ sig h. ground (arith, e, h)) refl
      go (some no_sig) e = unsigned block block.qc (λ sig h. ground (arith, e, h)) refl
      go (some (proposer_sig sig)) e = signed_by sig (get_leader_for_view config block.view) e refl

-- A block that is too short to be read is too short to be hashed.
read_or_hashed :
    (short : Bool) (body : Option Block) (fill : Block → Block) (x hsh : Bytes)
    → (if short then done none else elim body [ none ↦ panicked | some b ↦ done (some (fill b)) ])
      ≡ done none
    → (if short then panicked else done x) ≢ done hsh
read_or_hashed true body fill x hsh d h = ground arith
read_or_hashed false none fill x hsh d h = ground arith
read_or_hashed false (some b) fill x hsh d h = ground arith

never_empty :
    (codec : Codec) (prims : Primitives) (block_ser hsh : Bytes)
    → deserialize_proto_block codec block_ser ≡ done none
    → hash_proto_block_ser prims block_ser ≢ done hsh
unfolding deserialize_proto_block hash_proto_block_ser
never_empty codec prims block_ser hsh =
    read_or_hashed (ltb (length block_ser) (digest_length + signature_length))
      (codec.decode (drop (digest_length + signature_length) block_ser)) _ _ hsh

module _ (prims : Primitives) (codec : Codec) (keys : KeyStore) (config : Config) (min_qc_len : ℕ)
    (block_ser : Bytes) where
  -- What an accepted block is.
  pub record IsAccepted (c : CachedBlock) : Type 0 where
    pub same_bytes : c.block_ser ≡ block_ser
    pub hashed : hash_proto_block_ser prims block_ser ≡ done c.block_hash
    pub read : deserialize_proto_block codec block_ser ≡ done (some c.block)
    pub verified : IsVerified prims keys config min_qc_len block_ser c.block

  abbrev pub Verdict : Checked → Type 0
  Verdict (accepted c) = IsAccepted c
  Verdict (refused e) =
      (b : Block) × (deserialize_proto_block codec block_ser ≡ done (some b))
      × IsFault prims keys config min_qc_len block_ser b e

  -- If `VerifyBlockSer` returns and accepts, then the bytes are those it was given, the hash is
  -- theirs and the block is read from them, and either the leader of the block's view signed it and
  -- every certificate in it passes, or it has no signature and no certificate. If it returns and
  -- refuses, then the block is read from the bytes, and the error is that the signature is not one of
  -- the leader of its view, that one of its certificates does not pass, or that it has a certificate
  -- and no signature; so bytes that cannot be read end the task.
  pub verify_block_ser-Verdict :
      IfDone Verdict (verify_block_ser prims codec keys config min_qc_len block_ser)
  unfolding verify_block_ser
  verify_block_ser-Verdict =
      read_first (deserialize_proto_block codec block_ser) refl
        (hash_proto_block_ser prims block_ser) refl
    where
      verdict :
          (b : Block) (hsh : Bytes) (error : Outcome (Option BlockError))
          → deserialize_proto_block codec block_ser ≡ done (some b)
          → hash_proto_block_ser prims block_ser ≡ done hsh
          → IfDone (Reason prims keys config min_qc_len block_ser b) error
          → IfDone Verdict
              (error >>= λ e. done (map_or (accepted (cached block_ser hsh b)) refused e))
      verdict b hsh (done none) d h e = record {
        same_bytes = refl;
        hashed = h;
        read = d;
        verified = e;
      }
      verdict b hsh (done (some error)) d h e = (b, d, e)
      verdict b hsh panicked d h e = tt
      verdict b hsh failed d h e = tt
      verdict b hsh out_of_fuel d h e = tt

      read_first :
          (d : Outcome (Option Block))
          → deserialize_proto_block codec block_ser ≡ d
          → (h : Outcome Bytes) → hash_proto_block_ser prims block_ser ≡ h
          → IfDone Verdict (
              d >>= λ block. h >>= λ hsh. elim block [
                | none ↦ done (refused decode_error)
                | some b ↦ block_error prims keys config min_qc_len block_ser b >>= λ e.
                    done (map_or (accepted (cached block_ser hsh b)) refused e)
              ])
      read_first (done none) d (done hsh) h = absurd (never_empty codec prims block_ser hsh d h)
      read_first (done (some b)) d (done hsh) h =
          verdict b hsh _ d h (block_error-Reason prims keys config min_qc_len block_ser b)
      read_first (done _) d panicked h = tt
      read_first (done _) d failed h = tt
      read_first (done _) d out_of_fuel h = tt
      read_first panicked d _ h = tt
      read_first failed d _ h = tt
      read_first out_of_fuel d _ h = tt
